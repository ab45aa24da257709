-- ===== src/Base/Map.antt =====
-- Go maps as association lists, for any key with an equality test. A new key goes to the end.
use star_konflict.Base.Tests.{◌==◌ as nat_beq, ==_iff, if◌then◌else◌, Bool-cases}
use star_konflict.Base.Text.{Bytes, same, same_iff}
use Prim.Native.Nat.{ℕ}
use mathlib.Core.Path.{◌≡◌, refl, sym, ap, ◌∙◌, subst, subst₂}
use mathlib.Core.Logic.{◌↔◌, inl, inr}
use mathlib.Core.Bool.{Bool, true, false}
use mathlib.Core.List.{List, [], ◌∷◌, ◌++◌}
use mathlib.Core.Option.{Option, none, some}
use native.Mathlib.Omega.{arith}

pub record Eq {ℓ} (A : Type ℓ) : Type ℓ where
  pub beq : A → A → Bool
  pub beq_iff : (a b : A) → (beq a b ≡ true) ↔ (a ≡ b)

instance abbrev pub nat_eq : Eq ℕ
nat_eq = record { beq = nat_beq; beq_iff = ==_iff }

instance abbrev pub bytes_eq : Eq Bytes
bytes_eq = record { beq = same; beq_iff = same_iff }

module _ {ℓ} {A : Type ℓ} ⦃e : Eq A⦄ where
  pub beq_refl : (a : A) → e.beq a a ≡ true
  beq_refl a = (e.beq_iff a a).1 refl

  pub beq_sym : (a b : A) → e.beq a b ≡ e.beq b a
  beq_sym a b = elim (Bool-cases (e.beq a b)) [
    | inl y ↦ rw ((e.beq_iff a b).0 y)
    | inr n ↦ elim (Bool-cases (e.beq b a)) [ inl y ↦ rw ((e.beq_iff b a).0 y) | inr m ↦ n ∙ sym m ]
  ]

module _ {ℓ κ} {K : Type ℓ} {V : Type κ} ⦃e : Eq K⦄ where
  -- `v, ok := m[k]`.
  unfoldable pub lookup : K → List (K × V) → Option V
  lookup k [] = none
  lookup k ((j, v) ∷ m) = if e.beq j k then some v else lookup k m

  -- `m[k] = v`.
  unfoldable pub insert : K → V → List (K × V) → List (K × V)
  insert k v [] = (k, v) ∷ []
  insert k v ((j, w) ∷ m) = if e.beq j k then (j, v) ∷ m else (j, w) ∷ insert k v m

  pub lookup-insert :
      (k j : K) (v : V) (m : List (K × V))
      → lookup j (insert k v m) ≡ (if e.beq k j then some v else lookup j m)
  unfolding lookup insert
  lookup-insert k j v [] = refl
  lookup-insert k j v ((i, w) ∷ m) =
      ground (arith, e.beq_iff i k, e.beq_iff k j, e.beq_iff i j, lookup-insert k j v m)

  pub lookup-insert_self : (k : K) (v : V) (m : List (K × V)) → lookup k (insert k v m) ≡ some v
  lookup-insert_self k v m = lookup-insert k k v m ∙ rw (beq_refl k)

  pub lookup-insert_ne :
      (k j : K) (v : V) (m : List (K × V))
      → e.beq k j ≡ false
      → lookup j (insert k v m) ≡ lookup j m
  lookup-insert_ne k j v m h = lookup-insert k j v m ∙ rw h

-- What holds of every entry.
module _ {ℓ κ μ} {K : Type ℓ} {V : Type κ} ⦃e : Eq K⦄ (P : K → V → Type μ) where
  abbrev pub Every : List (K × V) → Type μ
  Every [] = Unit {μ}
  Every ((k, v) ∷ m) = P k v × Every m

  pub Every-insert : (k : K) (v : V) (m : List (K × V)) → P k v → Every m → Every (insert k v m)
  unfolding insert
  Every-insert k v [] p h = (p, tt)
  Every-insert k v ((j, w) ∷ m) p h = elim (Bool-cases (e.beq j k)) [
    | inl y ↦ rw y (subst (λ i. P i v) (sym ((e.beq_iff j k).0 y)) p, h.1)
    | inr n ↦ rw n (h.0, Every-insert k v m p h.1)
  ]

  pub Every-lookup : (k : K) {v : V} (m : List (K × V)) → lookup k m ≡ some v → Every m → P k v
  unfolding lookup
  Every-lookup k [] f h = cc
  Every-lookup k {v} ((j, w) ∷ m) f h = elim (Bool-cases (e.beq j k)) [
    | inl y ↦ let value : w ≡ v = cc (rw y at f) in subst₂ P ((e.beq_iff j k).0 y) value h.0
    | inr n ↦ Every-lookup k m (rw n at f) h.1
  ]

module _ {ℓ κ} {K : Type ℓ} {V : Type κ} ⦃e : Eq K⦄ where
  abbrev pub keys : List (K × V) → List K
  keys [] = []
  keys ((k, v) ∷ m) = k ∷ keys m

  pub keys-insert_new :
      (k : K) (v : V) (m : List (K × V))
      → lookup k m ≡ none
      → keys (insert k v m) ≡ keys m ++ k ∷ []
  unfolding lookup insert
  keys-insert_new k v [] h = refl
  keys-insert_new k v ((j, w) ∷ m) h = elim (Bool-cases (e.beq j k)) [
    | inl y ↦ cc (rw y at h)
    | inr n ↦ rw n (ap (λ t. j ∷ t) (keys-insert_new k v m (rw n at h)))
  ]

  pub keys-insert_old :
      (k : K) (v : V) {w : V} (m : List (K × V))
      → lookup k m ≡ some w
      → keys (insert k v m) ≡ keys m
  unfolding lookup insert
  keys-insert_old k v [] h = cc
  keys-insert_old k v ((j, u) ∷ m) h = elim (Bool-cases (e.beq j k)) [
    | inl y ↦ rw y
    | inr n ↦ rw n (ap (λ t. j ∷ t) (keys-insert_old k v m (rw n at h)))
  ]
