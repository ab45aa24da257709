-- ===== src/Scproto/Tables/Laws.antt =====
-- Element keys are unique, the universe is sorted, and it lists what `Name` knows.
use star_konflict.Base.{
  ℕ, ◌≤◌, true, false, List, [], ◌∷◌, ◌≡◌, same, same_iff, before_asym, before_total, before_trans,
  ltb, arith, Bool-cases, inl, inr, All, ltb→lt, ltb-false,
}
use star_konflict.Base.Map.{beq_sym, bytes_eq}
use star_konflict.Base.Decimal.{decimal, decimal-injective, decimal-Without, joined_once}
use star_konflict.Scproto.Tables.{Kind, Element, key, less, insert_sorted, sort_elements}

-- Two elements share a key only if they share kind and id.
pub key-injective : (k j : Kind) (a b : ℕ) → key k a ≡ key j b → (k ≡ j) × (a ≡ b)
unfolding key
key-injective k j a b e =
    let (kinds, ids) =
      joined_once b':' k j (decimal a) (decimal b) (decimal-Without b':' a (λ h. omega arith))
        (decimal-Without b':' b (λ h. omega arith)) e in
    (kinds, decimal-injective a b ids)

-- Sorted: no element is less than one before it.
abbrev pub NotAfter : Element → List Element → Type 0
NotAfter a = All (λ b. less b a ≡ false)

abbrev pub IsSorted : List Element → Type 0
IsSorted [] = Unit {0}
IsSorted (a ∷ as') = NotAfter a as' × IsSorted as'

less_asym : (a b : Element) → less a b ≡ true → less b a ≡ false
unfolding less
less_asym a b h = elim (Bool-cases (same a.kind b.kind)) [
  | inl y ↦ rw (beq_sym b.kind a.kind, y) (ltb-false _ _ (later (rw y at h)))
  | inr n ↦ rw (beq_sym b.kind a.kind, n) (before_asym _ _ (rw n at h))
]
  where
    later : ltb a.id b.id ≡ true → a.id ≤ b.id
    later h = omega (arith, ltb→lt a.id b.id h)

less_trans : (a b c : Element) → less b a ≡ false → less c b ≡ false → less c a ≡ false
unfolding less
less_trans a b c h k = ground (
  arith,
  same_iff b.kind a.kind,
  same_iff c.kind b.kind,
  same_iff c.kind a.kind,
  before_trans a.kind b.kind c.kind,
  before_total b.kind a.kind,
  before_total c.kind a.kind,
  before_asym a.kind b.kind,
  before_asym b.kind a.kind,
  before_asym c.kind b.kind,
)

NotAfter-trans :
    (a b : Element) (cs : List Element) → less b a ≡ false → NotAfter b cs → NotAfter a cs
NotAfter-trans a b [] h k = tt
NotAfter-trans a b (c ∷ cs) h k = (less_trans a b c h k.0, NotAfter-trans a b cs h k.1)

NotAfter-insert :
    (b a : Element) (as' : List Element)
    → less a b ≡ false
    → NotAfter b as'
    → NotAfter b (insert_sorted a as')
unfolding insert_sorted
NotAfter-insert b a [] h k = (h, tt)
NotAfter-insert b a (c ∷ as') h k = ground (arith, NotAfter-insert b a as' h k.1)

insert_sorted-IsSorted :
    (a : Element) (as' : List Element) → IsSorted as' → IsSorted (insert_sorted a as')
unfolding insert_sorted
insert_sorted-IsSorted a [] h = (tt, tt)
insert_sorted-IsSorted a (b ∷ bs) h = elim (Bool-cases (less b a)) [
  | inl y ↦ rw y (NotAfter-insert b a bs (less_asym b a y) h.0, insert_sorted-IsSorted a bs h.1)
  | inr n ↦ rw n ((n, NotAfter-trans a b bs n h.0), h)
]

-- The universe is sorted by kind and id.
pub sort_elements-IsSorted : (as' : List Element) → IsSorted (sort_elements as')
unfolding sort_elements
sort_elements-IsSorted [] = tt
sort_elements-IsSorted (a ∷ as') = insert_sorted-IsSorted a _ (sort_elements-IsSorted as')
