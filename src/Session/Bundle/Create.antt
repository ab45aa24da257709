-- ===== src/Session/Bundle/Create.antt =====
-- `CreateBundle` of sc-capture/internal/session/bundle.go: which number it takes.
use star_konflict.Base.{
  ℕ, zero, suc, ◌+◌, ◌<◌, ◌≤◌, ◌≡◌, ◌⊎◌, ◌≢◌, ◌==◌, refl, ap, Bool, true, false, List, ◌∷◌, Bytes,
  arith, Bool-cases, inl, inr,
}
use star_konflict.Session.Bundle.{bundle_id, has_name, Created, created, create_from, create_bundle}

-- No directory changes, or one with a new name joins.
abbrev pub Joins : List Bytes → List Bytes → Type 0
Joins dirs result =
    (result ≡ dirs) ⊎ ((id : Bytes) × (result ≡ id ∷ dirs) × (has_name id dirs ≡ false))

module _ (denied chmod : Bytes → Bool) where
  create_from-Joins :
      (name : ℕ → Bytes) (dirs : List Bytes) (n seq : ℕ)
      → Joins dirs (create_from denied chmod name dirs n seq).1
  unfolding create_from
  create_from-Joins name dirs zero seq = inl refl
  create_from-Joins name dirs (suc n) seq = elim (Bool-cases (denied (name seq))) [
    | inl y ↦ inl (rw y)
    | inr u ↦ elim (Bool-cases (has_name (name seq) dirs)) [
      | inl y ↦ rw (u, y) (create_from-Joins name dirs n (seq + 1))
      | inr m ↦ inr (name seq, rw (u, m), m)
    ]
  ]

  -- Whatever fails, `CreateBundle` leaves every directory as it is, and at most one joins them,
  -- whose name none of them had.
  pub create_bundle-Joins :
      (parent : Bool) (start scenario volunteer region : Bytes) (dirs : List Bytes)
      → Joins dirs (create_bundle denied chmod parent start scenario volunteer region dirs).1
  unfolding create_bundle
  create_bundle-Joins false start scenario volunteer region dirs = inl refl
  create_bundle-Joins true start scenario volunteer region dirs =
      create_from-Joins (bundle_id start scenario volunteer region) dirs 1000 0

-- The bundle of the number `seq` is made, and all earlier numbers from `first` on are taken.
pub record Takes (name : ℕ → Bytes) (dirs : List Bytes) (first k : ℕ) (r : Created × List Bytes)
    : Type 0 where
  pub seq : ℕ
  pub from_first : first ≤ seq
  pub no_later : seq ≤ k
  pub result : r ≡ (created (name seq), name seq ∷ dirs)
  pub free : has_name (name seq) dirs ≡ false
  pub taken : (j : ℕ) → first ≤ j → j < seq → has_name (name j) dirs ≡ true

before_or_at :
    (name : ℕ → Bytes) (dirs : List Bytes) (j seq end : ℕ)
    → seq ≤ j
    → j < end
    → has_name (name seq) dirs ≡ true
    → ((i : ℕ) → seq + 1 ≤ i → i < end → has_name (name i) dirs ≡ true)
    → has_name (name j) dirs ≡ true
before_or_at name dirs j seq end a c here later = elim (Bool-cases (j == seq)) [
  | inl y ↦ let same_number : j ≡ seq = ground arith in rw same_number here
  | inr n ↦ later j (ground arith) c
]

module _ (denied chmod : Bytes → Bool) (able : (n : Bytes) → denied n ≡ false)
    (owned : (n : Bytes) → chmod n ≡ true) where
  create_from-Takes :
      (name : ℕ → Bytes) (dirs : List Bytes) (n seq k : ℕ)
      → seq ≤ k
      → k < seq + n
      → has_name (name k) dirs ≡ false
      → Takes name dirs seq k (create_from denied chmod name dirs n seq)
  unfolding create_from
  create_from-Takes name dirs zero seq k l b f = absurd (omega arith)
  create_from-Takes name dirs (suc n) seq k l b f = elim (Bool-cases (has_name (name seq) dirs)) [
    | inl y ↦
        let other : seq ≢ k = λ e. cc (ap (λ j. has_name (name j) dirs) e) in
        let ih = create_from-Takes name dirs n (seq + 1) k (omega arith) (omega arith) f in
        record {
          seq = ih.seq;
          from_first = omega (arith, ih.from_first);
          no_later = ih.no_later;
          result = rw (able (name seq), y) ih.result;
          free = ih.free;
          taken = λ j a c. before_or_at name dirs j seq ih.seq a c y ih.taken;
        }
    | inr m ↦ record {
      seq = seq;
      from_first = omega arith;
      no_later = l;
      result = rw (able (name seq), m, owned (name seq));
      free = m;
      taken = λ j a c. absurd (omega arith);
    }
  ]

  -- When the parent is there or is made, no directory is refused and permissions can be set, and the bundle's name with some number
  -- `k` below 1000 is free, `CreateBundle` makes a bundle: with the first number whose name is
  -- free, all lower ones being taken.
  pub create_bundle-Takes :
      (start scenario volunteer region : Bytes) (dirs : List Bytes) (k : ℕ)
      → k < 1000
      → has_name (bundle_id start scenario volunteer region k) dirs ≡ false
      → Takes
          (bundle_id start scenario volunteer region)
          dirs
          0
          k
          (create_bundle denied chmod true start scenario volunteer region dirs)
  unfolding create_bundle
  create_bundle-Takes start scenario volunteer region dirs k b f =
      create_from-Takes (bundle_id start scenario volunteer region) dirs 1000 0 k (omega arith)
        (omega arith) f
