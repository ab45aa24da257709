-- ===== src/Coverage/Views.antt =====
-- `Summarise` and `Filter` of sc-capture/internal/coverage/store.go.
use star_konflict.Base.{
  ℕ, suc, ◌+◌, Bool, true, false, List, [], ◌∷◌, Bytes, text, same, same_iff, if◌then◌else◌, ◌≡◌,
  refl, ap, ◌∙◌, arith, Bool-cases, inl, inr, All, length, ◌≢◌,
}
use star_konflict.Scproto.Tables.{Kind, kind_message_type, kind_async_request, kind_notification}
use star_konflict.Coverage.{
  State, decoded, observed_undecoded, never_observed, other, state_text, Entry, Document, Summary,
  empty_summary, tally, tally_kind, tally_all, summarise, matches, select, filter, entry_less,
  insert_entry, sort_entries,
}

abbrev pub Balanced : Summary → Type 0
Balanced s = s.known ≡ s.decoded + s.undecoded + s.never_observed

tally-Balanced : (s : Summary) (st : State) → Balanced s → Balanced (tally s st)
unfolding tally
tally-Balanced s decoded b = omega arith
tally-Balanced s observed_undecoded b = omega arith
tally-Balanced s never_observed b = omega arith
tally-Balanced s (other t) b = omega arith

tally_kind-Balanced :
    (e : Entry) (ss : List Summary) → All Balanced ss → All Balanced (tally_kind e ss)
unfolding tally_kind
tally_kind-Balanced e [] b = tt
tally_kind-Balanced e (s ∷ ss) b = elim (Bool-cases (same s.kind e.kind)) [
  | inl y ↦ rw y (tally-Balanced s e.state b.0, b.1)
  | inr u ↦ rw u (b.0, tally_kind-Balanced e ss b.1)
]

tally_all-Balanced :
    (m : List (Bytes × Entry)) (ss : List Summary) → All Balanced ss → All Balanced (tally_all m ss)
unfolding tally_all
tally_all-Balanced [] ss b = b
tally_all-Balanced ((_, e) ∷ m) ss b = tally_all-Balanced m _ (tally_kind-Balanced e ss b)

-- In every summary the elements of each state add up to the known ones.
pub summarise-Balanced : (d : Document) → All Balanced (summarise d)
unfolding summarise
summarise-Balanced d = tally_all-Balanced d.elements _ (refl, (refl, (refl, tt)))

-- The known count that is reported for a kind.
abbrev pub known_of : Kind → List Summary → ℕ
known_of k [] = 0
known_of k (s ∷ ss) = if same k s.kind then s.known else known_of k ss

abbrev has_kind : Kind → List Summary → Bool
has_kind k [] = false
has_kind k (s ∷ ss) = if same k s.kind then true else has_kind k ss

abbrev count_kind : Kind → List (Bytes × Entry) → ℕ
count_kind k [] = 0
count_kind k ((_, e) ∷ m) = if same e.kind k then suc (count_kind k m) else count_kind k m

tally_known :
    (s : Summary) (st : State) → ((tally s st).kind ≡ s.kind) × ((tally s st).known ≡ s.known + 1)
unfolding tally
tally_known s decoded = (refl, refl)
tally_known s observed_undecoded = (refl, refl)
tally_known s never_observed = (refl, refl)
tally_known s (other t) = (refl, refl)

tally_kind-has :
    (k : Kind) (e : Entry) (ss : List Summary) → has_kind k (tally_kind e ss) ≡ has_kind k ss
unfolding tally_kind
tally_kind-has k e [] = refl
tally_kind-has k e (s ∷ ss) = elim (Bool-cases (same s.kind e.kind)) [
  | inl y ↦ rw y (ap (λ j. if same k j then true else has_kind k ss) (tally_known s e.state).0)
  | inr u ↦ rw u (ap (λ b. if same k s.kind then true else b) (tally_kind-has k e ss))
]

abbrev one_if : Bool → ℕ
one_if b = if b then 1 else 0

known_of-tally_kind :
    (k : Kind) (e : Entry) (ss : List Summary)
    → has_kind k ss ≡ true
    → known_of k (tally_kind e ss) ≡ known_of k ss + one_if (same e.kind k)
unfolding tally_kind
known_of-tally_kind k e [] h = ground arith
known_of-tally_kind k e (s ∷ ss) h = ground (
  arith,
  same_iff s.kind e.kind,
  same_iff k s.kind,
  same_iff e.kind k,
  tally_known s e.state,
  known_of-tally_kind k e ss,
)

known_of-tally_all :
    (m : List (Bytes × Entry)) (k : Kind) (ss : List Summary)
    → has_kind k ss ≡ true
    → known_of k (tally_all m ss) ≡ known_of k ss + count_kind k m
unfolding tally_all
known_of-tally_all [] k ss h = omega arith
known_of-tally_all ((_, e) ∷ m) k ss h =
    let later = known_of-tally_all m k (tally_kind e ss) (tally_kind-has k e ss ∙ h) in
    let first = known_of-tally_kind k e ss h in ground (arith, later, first)

length-insert_entry : (a : Entry) (bs : List Entry) → length (insert_entry a bs) ≡ suc (length bs)
unfolding insert_entry
length-insert_entry a [] = refl
length-insert_entry a (b ∷ bs) = elim (Bool-cases (entry_less b a)) [
  | inl y ↦ rw y (ap suc (length-insert_entry a bs))
  | inr u ↦ rw u
]

length-sort_entries : (es : List Entry) → length (sort_entries es) ≡ length es
unfolding sort_entries
length-sort_entries [] = refl
length-sort_entries (a ∷ as') = length-insert_entry a _ ∙ ap suc (length-sort_entries as')

length-select :
    (k : Kind) (m : List (Bytes × Entry)) → k ≢ [] → length (select k [] m) ≡ count_kind k m
unfolding select matches
length-select [] m ne = absurd (ne refl)
length-select (c ∷ cs) [] ne = refl
length-select (c ∷ cs) ((_, e) ∷ m) ne = elim (Bool-cases (same e.kind (c ∷ cs))) [
  | inl y ↦ rw y (ap suc (length-select (c ∷ cs) m ne))
  | inr u ↦ rw u (length-select (c ∷ cs) m ne)
]

three : List Summary
three =
    empty_summary kind_message_type
    ∷ empty_summary kind_async_request
    ∷ empty_summary kind_notification
    ∷ []

known_of-summarise :
    (d : Document) (k : Kind)
    → k ≢ []
    → has_kind k three ≡ true
    → known_of k three ≡ 0
    → known_of k (summarise d) ≡ length (filter d k [])
unfolding summarise filter three
known_of-summarise d k ne h z = omega (
  arith,
  known_of-tally_all d.elements k three h,
  z,
  length-sort_entries (select k [] d.elements),
  length-select k d.elements ne,
)

-- For each of the three kinds, the known count in `Summarise` is the number of entries that
-- `Filter` returns for that kind and any state.
pub summarise-filter :
    (d : Document)
    → All
        (λ k. known_of k (summarise d) ≡ length (filter d k []))
        (kind_message_type ∷ kind_async_request ∷ kind_notification ∷ [])
unfolding three text same
summarise-filter d = (
  known_of-summarise d kind_message_type (λ e. cc) refl refl,
  (
    known_of-summarise d kind_async_request (λ e. cc) refl refl,
    (known_of-summarise d kind_notification (λ e. cc) refl refl, tt),
  ),
)

abbrev pub Asked : Bytes → Bytes → Entry → Type 0
Asked kind state e = (matches kind e.kind ≡ true) × (matches state (state_text e.state) ≡ true)

insert_entry-Asked :
    (kind state : Bytes) (a : Entry) (bs : List Entry)
    → Asked kind state a
    → All (Asked kind state) bs
    → All (Asked kind state) (insert_entry a bs)
unfolding insert_entry
insert_entry-Asked kind state a [] p h = (p, tt)
insert_entry-Asked kind state a (b ∷ bs) p h = elim (Bool-cases (entry_less b a)) [
  | inl y ↦ rw y (h.0, insert_entry-Asked kind state a bs p h.1)
  | inr u ↦ rw u (p, h)
]

sort_entries-Asked :
    (kind state : Bytes) (es : List Entry)
    → All (Asked kind state) es
    → All (Asked kind state) (sort_entries es)
unfolding sort_entries
sort_entries-Asked kind state [] h = tt
sort_entries-Asked kind state (a ∷ as') h =
    insert_entry-Asked kind state a _ h.0 (sort_entries-Asked kind state as' h.1)

select-Asked :
    (kind state : Bytes) (m : List (Bytes × Entry)) → All (Asked kind state) (select kind state m)
unfolding select
select-Asked kind state [] = tt
select-Asked kind state ((_, e) ∷ m) = elim (Bool-cases (matches kind e.kind)) [
  | inl y ↦ elim (Bool-cases (matches state (state_text e.state))) [
    | inl z ↦ rw (y, z) ((y, z), select-Asked kind state m)
    | inr u ↦ rw (y, u) (select-Asked kind state m)
  ]
  | inr u ↦ rw u (select-Asked kind state m)
]

-- `Filter` returns only entries of the kind and of the state that are asked for, where an empty
-- text asks for any.
pub filter-Asked :
    (d : Document) (kind state : Bytes) → All (Asked kind state) (filter d kind state)
unfolding filter
filter-Asked d kind state = sort_entries-Asked kind state _ (select-Asked kind state d.elements)
