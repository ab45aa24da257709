-- ===== src/Flow/Keys.antt =====
-- The canonical key of a flow: both directions have the same one, and other flows have others.
use star_konflict.Base.{
  ℕ, Bool, true, false, not, ◌&&◌, ◌||◌, Bytes, same, same_iff, same_refl, before, before_asym,
  before_total, before_irrefl, leb, ◌==◌, ==_iff, if◌then◌else◌, ◌≡◌, ◌↔◌, refl, sym, arith,
}
use star_konflict.Base.Map.{Eq}

pub record Key : Type 0 where
  pub a : Bytes
  pub b : Bytes
  pub a_port : ℕ
  pub b_port : ℕ
  pub udp : Bool

unfoldable pub same_bool : Bool → Bool → Bool
same_bool true b = b
same_bool false b = not b

same_bool_iff : (a b : Bool) → (same_bool a b ≡ true) ↔ (a ≡ b)
unfolding same_bool
same_bool_iff true true = (λ _. refl, λ _. refl)
same_bool_iff true false = (λ e. sym e, λ e. sym e)
same_bool_iff false true = (λ e. e, λ e. e)
same_bool_iff false false = (λ _. refl, λ _. refl)

abbrev same_key : Key → Key → Bool
same_key x y =
    same x.a y.a
    && same x.b y.b
    && x.a_port == y.a_port
    && x.b_port == y.b_port
    && same_bool x.udp y.udp

pub same_key_iff : (x y : Key) → (same_key x y ≡ true) ↔ (x ≡ y)
same_key_iff x y = (
  λ h. ground (arith, same_iff x.a y.a, same_iff x.b y.b, same_bool_iff x.udp y.udp),
  λ e. rw e (
      rw (
        same_refl y.a,
        same_refl y.b,
        (==_iff y.a_port y.a_port).1 refl,
        (==_iff y.b_port y.b_port).1 refl,
        (same_bool_iff y.udp y.udp).1 refl,
      )),
)

instance abbrev pub key_eq : Eq Key
key_eq = record { beq = same_key; beq_iff = same_key_iff }

-- `NewKey`, with whether the ends were exchanged.
unfoldable pub new_key : Bytes → ℕ → Bytes → ℕ → Bool → Key × Bool
new_key s sp d dp udp =
    if before s d || (same s d && leb sp dp)
    then (record { a = s; a_port = sp; b = d; b_port = dp; udp = udp }, false)
    else (record { a = d; a_port = dp; b = s; b_port = sp; udp = udp }, true)

-- Both directions of a flow map to the same entry.
pub new_key_symm :
    (s : Bytes) (sp : ℕ) (d : Bytes) (dp : ℕ) (udp : Bool)
    → (new_key s sp d dp udp).0 ≡ (new_key d dp s sp udp).0
unfolding new_key
new_key_symm s sp d dp udp = ground (
  arith,
  same_iff s d,
  same_iff d s,
  before_asym s d,
  before_asym d s,
  before_total s d,
  before_irrefl s,
)
