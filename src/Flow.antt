-- ===== src/Flow.antt =====
-- sc-capture/internal/flow/flow.go. An IP address is its text, which is all that the code compares
-- and stores; a time is a number of nanoseconds. The mutex only orders the calls.
pub mod Keys
pub mod Ends
pub mod Invariant
pub mod Changes
pub mod Classify
use star_konflict.Base.{
  ℕ, suc, ◌+◌, ◌-◌, Bool, true, false, not, ◌&&◌, ◌||◌, List, [], ◌∷◌, ◌++◌, Bytes, text, same,
  before, ltb, leb, ◌==◌, if◌then◌else◌, Option, none, some, length, map, replicate,
}
use star_konflict.Base.Decimal.{decimal}
use star_konflict.Base.Map.{Eq, lookup, insert, bytes_eq, nat_eq}
use star_konflict.Flow.Keys.{Key, new_key, key_eq}

pub data Service : Type 0 where
  loadbalancer shard chat web dedicated unknown : Service

pub data Evidence : Type 0 where
  port handoff heuristic : Evidence

pub data Direction : Type 0 where
  client_to_server server_to_client : Direction

pub data ReassemblyState : Type 0 where
  in_order desynced : ReassemblyState

abbrev pub service_ports : List (ℕ × Service)
service_ports = (3801, loadbalancer) ∷ (3802, shard) ∷ (3815, chat) ∷ (80, web) ∷ (443, web) ∷ []

pub record Endpoints : Type 0 where
  pub client_ip : Bytes
  pub client_port : ℕ
  pub server_ip : Bytes
  pub server_port : ℕ

pub record Connection : Type 0 where
  pub conn_id : Bytes
  pub udp : Bool
  pub service : Service
  pub service_evidence : Evidence
  pub rewritten : Bool
  pub reassembly_state : ReassemblyState
  pub desync_at_frame : Option ℕ
  pub endpoints : Endpoints
  pub first_seen : ℕ
  pub last_seen : ℕ
  pub key : Key

pub record Table : Type 0 where
  pub by_key : List (Key × Connection)
  pub order : List Key
  pub next_id : ℕ
  pub dedicated_at : List (Bytes × ℕ)

unfoldable pub new_table : Table
new_table = record { by_key = []; order = []; next_id = 0; dedicated_at = [] }

-- `fmt.Sprintf("%s:%d", ip, port)`.
unfoldable pub addr_key : Bytes → ℕ → Bytes
addr_key ip p = ip ++ (b':' ∷ decimal p)

-- `fmt.Sprintf("c%03d", n)`.
unfoldable pub conn_id_of : ℕ → Bytes
conn_id_of n = b'c' ∷ (replicate (3 - length (decimal n)) b'0' ++ decimal n)

abbrev pub ends : Bytes → ℕ → Bytes → ℕ → Endpoints
ends client cp server sp = record {
  client_ip = client;
  client_port = cp;
  server_ip = server;
  server_port = sp;
}

pub record Classified : Type 0 where
  pub endpoints : Endpoints
  pub service : Service
  pub evidence : Evidence

abbrev is_dedicated : Table → Bytes → ℕ → Bool
is_dedicated t ip p = elim (lookup (addr_key ip p) t.dedicated_at) [ some _ ↦ true | none ↦ false ]

-- The last two returns of `classifyLocked`: the lower port is taken for the server's.
unfoldable pub by_lower_port : Bytes → ℕ → Bytes → ℕ → Classified
by_lower_port src sp dst dp =
    if ltb dp sp
    then record { endpoints = ends src sp dst dp; service = unknown; evidence = heuristic }
    else record { endpoints = ends dst dp src sp; service = unknown; evidence = heuristic }

unfoldable pub by_port : Bytes → ℕ → Bytes → ℕ → Classified
by_port src sp dst dp = elim (lookup dp service_ports) [
  | some svc ↦ record { endpoints = ends src sp dst dp; service = svc; evidence = port }
  | none ↦ elim (lookup sp service_ports) [
    | some svc ↦ record { endpoints = ends dst dp src sp; service = svc; evidence = port }
    | none ↦ by_lower_port src sp dst dp
  ]
]

unfoldable pub classify : Table → Bytes → ℕ → Bytes → ℕ → Classified
classify t src sp dst dp =
    if is_dedicated t dst dp
    then record { endpoints = ends src sp dst dp; service = dedicated; evidence = handoff }
    else if is_dedicated t src sp
    then record { endpoints = ends dst dp src sp; service = dedicated; evidence = handoff }
    else by_port src sp dst dp

-- The connection made at the first packet of a flow.
unfoldable pub fresh : Table → Key → Bytes → ℕ → Bytes → ℕ → Bool → ℕ → Connection
fresh t k src sp dst dp udp now =
    let c = classify t src sp dst dp in
    record {
      conn_id = conn_id_of (t.next_id + 1);
      udp = udp;
      service = c.service;
      service_evidence = c.evidence;
      rewritten = false;
      reassembly_state = in_order;
      desync_at_frame = none;
      endpoints = c.endpoints;
      first_seen = now;
      last_seen = now;
      key = k;
    }

unfoldable pub direction : Endpoints → Bytes → ℕ → Direction
direction e dst dp =
    if not (same dst e.server_ip) || not (dp == e.server_port)
    then server_to_client
    else client_to_server

pub record Observed : Type 0 where
  pub table : Table
  pub conn : Connection
  pub dir : Direction

unfoldable pub observe_found :
    Table → Key → Option Connection → Bytes → ℕ → Bytes → ℕ → Bool → ℕ → Observed
observe_found t k none src sp dst dp udp now =
    let c = fresh t k src sp dst dp udp now in
    record {
      table = record t {
        next_id = t.next_id + 1;
        by_key = insert k c t.by_key;
        order = t.order ++ k ∷ [];
      };
      conn = c;
      dir = direction c.endpoints dst dp;
    }
observe_found t k (some old) src sp dst dp udp now =
    let c = record old { last_seen = now } in
    record {
      table = record t { by_key = insert k c t.by_key };
      conn = c;
      dir = direction c.endpoints dst dp;
    }

unfoldable pub observe : Table → Bytes → ℕ → Bytes → ℕ → Bool → ℕ → Observed
observe t src sp dst dp udp now =
    let k = (new_key src sp dst dp udp).0 in
    observe_found t k (lookup k t.by_key) src sp dst dp udp now

-- The body of the loop over the map; a map's order is immaterial, every entry is changed alone.
unfoldable pub reclassify : Bytes → ℕ → Connection → Connection
reclassify ip p c =
    if same c.endpoints.server_ip ip && c.endpoints.server_port == p
    then record c { service = dedicated; service_evidence = handoff }
    else c

unfoldable pub reclassify_all : Bytes → ℕ → List (Key × Connection) → List (Key × Connection)
reclassify_all ip p [] = []
reclassify_all ip p ((k, c) ∷ m) = (k, reclassify ip p c) ∷ reclassify_all ip p m

unfoldable pub announce_dedicated : Table → Bytes → ℕ → ℕ → Table
announce_dedicated t ip p session_id = record t {
  dedicated_at = insert (addr_key ip p) session_id t.dedicated_at;
  by_key = reclassify_all ip p t.by_key;
}

unfoldable pub mark_connection : Connection → ℕ → Connection
mark_connection c frame = elim c.reassembly_state [
  | desynced ↦ c
  | in_order ↦ record c { reassembly_state = desynced; desync_at_frame = some frame }
]

unfoldable pub mark_found : Table → Key → ℕ → Option Connection → Table
mark_found t k frame none = t
mark_found t k frame (some c) = record t { by_key = insert k (mark_connection c frame) t.by_key }

-- The pointer `c` stands for the entry under its own key.
unfoldable pub mark_desync : Table → Key → ℕ → Table
mark_desync t k frame = mark_found t k frame (lookup k t.by_key)

unfoldable pub collect : List Key → List (Key × Connection) → List Connection
collect [] m = []
collect (k ∷ ks) m = elim (lookup k m) [ some c ↦ c ∷ collect ks m | none ↦ collect ks m ]

unfoldable pub connections : Table → List Connection
connections t = collect t.order t.by_key
