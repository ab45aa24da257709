-- ===== src/Dashboard/Ends.antt =====
-- Where the journey of sc-capture/cmd/sccov/main.go ends.
use star_konflict.Base.{
  ℕ, suc, ◌+◌, ◌≡◌, refl, sym, ap, ◌∙◌, true, not, ◌&&◌, List, [], ◌∷◌, Bytes, text, same, before,
  leb, Option, none, some, map, All, arith, Bool-cases, inl, inr,
}
use star_konflict.Base.Int.{ℤ, pos, negsuc, diff, ◌-ℤ◌}
use star_konflict.Base.Map.{lookup, insert, bytes_eq}
use star_konflict.Dashboard.{
  Element, Store, totals, Sess, sess_of, joined_by, counts_for_journey, group, insert_sess,
  sort_sess, sessions, Point, steps, merge, journey,
}
use star_konflict.Dashboard.Counted.{
  one_if, having, having-add, is_shown, is_never, totals_count, split_shown,
}

-- The elements that the sessions count, in all.
abbrev total : List Sess → ℕ
total [] = 0
total (s ∷ ss) = s.count + total ss

abbrev total_of : List (Bytes × Sess) → ℕ
total_of m = total (map (λ p. p.1) m)

abbrev count_or : Option Sess → ℕ
count_or none = 0
count_or (some s) = s.count

total-insert :
    (k : Bytes) (s : Sess) (m : List (Bytes × Sess))
    → total_of (insert k s m) + count_or (lookup k m) ≡ total_of m + s.count
unfolding insert lookup
total-insert k s [] = omega arith
total-insert k s ((j, t) ∷ m) = elim (Bool-cases (same j k)) [
  | inl y ↦ rw y (omega arith)
  | inr n ↦ rw n (omega (arith, total-insert k s m))
]

total-joined :
    (k : Bytes) (e : Element) (m : List (Bytes × Sess))
    → total_of (insert k (joined_by e (sess_of e (lookup k m))) m) ≡ suc (total_of m)
total-joined k e m =
    omega (arith, total-insert k (joined_by e (sess_of e (lookup k m))) m, grown (lookup k m))
  where
    grown : (o : Option Sess) → (joined_by e (sess_of e o)).count ≡ suc (count_or o)
    grown none = unfold joined_by sess_of in omega arith
    grown (some s) = unfold joined_by sess_of in omega arith

total-group :
    (es : List (Bytes × Element)) (m : List (Bytes × Sess))
    → total_of (group es m) ≡ total_of m + having counts_for_journey es
unfolding group
total-group [] m = omega arith
total-group ((n, e) ∷ es) m = elim (Bool-cases (counts_for_journey e)) [
  | inl y ↦ rw y (
      omega (
        arith,
        total-group es (
            insert e.first_seen_session (joined_by e (sess_of e (lookup e.first_seen_session m)))
              m),
        total-joined e.first_seen_session e m,
      ))
  | inr u ↦ rw u (omega (arith, total-group es m))
]

total-insert_sess : (s : Sess) (ss : List Sess) → total (insert_sess s ss) ≡ s.count + total ss
unfolding insert_sess
total-insert_sess s [] = refl
total-insert_sess s (t ∷ ss) = elim (Bool-cases (before t.utc s.utc)) [
  | inl y ↦ rw y (omega (arith, total-insert_sess s ss))
  | inr n ↦ rw n
]

total-sort_sess : (ss : List Sess) → total (sort_sess ss) ≡ total ss
unfolding sort_sess
total-sort_sess [] = refl
total-sort_sess (s ∷ ss) = omega (arith, total-insert_sess s (sort_sess ss), total-sort_sess ss)

-- The value of the last point, `v` if there is none.
abbrev pub last_value : ℤ → List Point → ℤ
last_value v [] = v
last_value v ((l, w) ∷ ps) = last_value w ps

subtract_both : (v : ℤ) (a b : ℕ) → (v -ℤ pos a) -ℤ pos b ≡ v -ℤ pos (a + b)
unfolding ◌-ℤ◌ diff
subtract_both (pos n) a b = elim (Bool-cases (leb a n)) [
  | inl y ↦ rw (y, diff, ◌-ℤ◌) (ground arith)
  | inr u ↦ rw (u, diff, ◌-ℤ◌) (ground arith)
]
subtract_both (negsuc n) a b = ap negsuc (omega arith)

subtract_none : (v : ℤ) → v ≡ v -ℤ pos 0
unfolding ◌-ℤ◌ diff
subtract_none (pos n) = ground arith
subtract_none (negsuc n) = ap negsuc (omega arith)

last_value-steps : (ss : List Sess) (v : ℤ) → last_value v (steps v ss) ≡ v -ℤ pos (total ss)
unfolding steps
last_value-steps [] v = subtract_none v
last_value-steps (s ∷ ss) v = last_value-steps ss _ ∙ subtract_both v s.count (total ss)

last_value-merge :
    (ps : List Point) (l : Bytes) (v d : ℤ) → last_value d (merge (l, v) ps) ≡ last_value v ps
unfolding merge
last_value-merge [] l v d = refl
last_value-merge ((m, w) ∷ ps) l v d = elim (Bool-cases (same l m)) [
  | inl y ↦ rw (y, merge) (last_value-merge ps l w d)
  | inr n ↦ rw (n, merge) (last_value-merge ps m w v)
]

-- The journey of any store ends at the known elements less those that some session saw first.
journey_end :
    (st : Store) (d : ℤ)
    → last_value d (journey st)
      ≡ pos (totals st).known -ℤ pos (having counts_for_journey st.elements)
unfolding journey sessions
journey_end st d =
    last_value-merge (steps (pos (totals st).known) (sessions st)) (text "Start") _ d
    ∙ last_value-steps (sessions st) _
    ∙ ap (λ n. pos (totals st).known -ℤ pos n)
        (total-sort_sess (map (λ p. p.1) (group st.elements []))
          ∙ total-group st.elements []
          ∙ omega arith)

rest_left : (known seen left : ℕ) → known ≡ seen + left → pos known -ℤ pos seen ≡ pos left
unfolding ◌-ℤ◌ diff
rest_left known seen left h = ground arith

-- An element whose stored fields agree: of a kind with a row, and first seen by a session exactly
-- if its state is one of the two that say that it was seen.
pub record IsConsistent (e : Element) : Type 0 where
  pub shown : is_shown e ≡ true
  pub seen : counts_for_journey e ≡ not (is_never e)

consistent_counts :
    (es : List (Bytes × Element))
    → All (λ p. IsConsistent p.1) es
    → having counts_for_journey es ≡ having (λ e. is_shown e && not (is_never e)) es
consistent_counts [] h = refl
consistent_counts ((n, e) ∷ es) h =
    let here : one_if (counts_for_journey e) ≡ one_if (is_shown e && not (is_never e)) =
      rw (h.0.seen, h.0.shown) in
    omega (arith, here, consistent_counts es h.1)

-- Of a store whose elements are consistent, the journey ends at the number of elements that are
-- reported as never observed: the value of its last step is the `Never` of the totals.
pub journey_ends_at_never :
    (st : Store) (d : ℤ)
    → All (λ p. IsConsistent p.1) st.elements
    → last_value d (journey st) ≡ (totals st).never
journey_ends_at_never st d h =
    let t = totals_count st in
    let seen = consistent_counts st.elements h in
    let split =
      having-add is_shown (λ e. is_shown e && not (is_never e)) (λ e. is_shown e && is_never e)
        st.elements split_shown in
    journey_end st d ∙ rest_left _ _ _ (omega (arith, t.0, split, seen)) ∙ sym t.4
