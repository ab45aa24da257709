-- ===== src/Flow/Ends.antt =====
-- Which end of a flow is the server, and the direction of travel that follows from it.
use star_konflict.Base.{ℕ, Bool, Bytes, same_iff, ◌≡◌, ◌≢◌, ◌⊎◌, arith}
use star_konflict.Base.Map.{bytes_eq, nat_eq}
use star_konflict.Flow.Keys.{Key, new_key}
use star_konflict.Flow.{
  Endpoints, Table, Direction, client_to_server, server_to_client, direction, classify, by_port,
  by_lower_port,
}
pub use star_konflict.Flow.{ends}

-- The ends of a connection are the two ends of its key.
abbrev pub Serves : Key → Endpoints → Type 0
Serves k e = (e ≡ ends k.a k.a_port k.b k.b_port) ⊎ (e ≡ ends k.b k.b_port k.a k.a_port)

by_port-ends :
    (src : Bytes) (sp : ℕ) (dst : Bytes) (dp : ℕ)
    → ((by_port src sp dst dp).endpoints ≡ ends src sp dst dp)
      ⊎ ((by_port src sp dst dp).endpoints ≡ ends dst dp src sp)
unfolding by_port by_lower_port
by_port-ends src sp dst dp = ground arith

pub classify-ends :
    (t : Table) (src : Bytes) (sp : ℕ) (dst : Bytes) (dp : ℕ)
    → ((classify t src sp dst dp).endpoints ≡ ends src sp dst dp)
      ⊎ ((classify t src sp dst dp).endpoints ≡ ends dst dp src sp)
unfolding classify
classify-ends t src sp dst dp = ground (arith, by_port-ends src sp dst dp)

pub classify-Serves :
    (t : Table) (src : Bytes) (sp : ℕ) (dst : Bytes) (dp : ℕ) (udp : Bool)
    → Serves (new_key src sp dst dp udp).0 (classify t src sp dst dp).endpoints
unfolding new_key
classify-Serves t src sp dst dp udp = ground (arith, classify-ends t src sp dst dp)

-- Packets of one flow that travel in opposite ways have opposite directions.
abbrev pub opposite : Direction → Direction
opposite client_to_server = server_to_client
opposite server_to_client = client_to_server

pub direction-opposite :
    (e : Endpoints) (src : Bytes) (sp : ℕ) (dst : Bytes) (dp : ℕ)
    → (e ≡ ends src sp dst dp) ⊎ (e ≡ ends dst dp src sp)
    → (src ≡ dst → sp ≢ dp)
    → direction e src sp ≡ opposite (direction e dst dp)
unfolding direction
direction-opposite e src sp dst dp h ne =
    ground (arith, same_iff src e.server_ip, same_iff dst e.server_ip, same_iff src dst, ne)

pub new_key-ends :
    (src : Bytes) (sp : ℕ) (dst : Bytes) (dp : ℕ) (udp : Bool) (e : Endpoints)
    → Serves (new_key src sp dst dp udp).0 e
    → (e ≡ ends src sp dst dp) ⊎ (e ≡ ends dst dp src sp)
unfolding new_key
new_key-ends src sp dst dp udp e h = ground arith
