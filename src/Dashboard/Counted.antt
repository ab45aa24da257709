-- ===== src/Dashboard/Counted.antt =====
-- The totals of sc-capture/cmd/sccov/main.go as numbers of elements.
use star_konflict.Base.{
  ℕ, ◌+◌, ◌≡◌, refl, sym, ap, ◌∙◌, Bool, true, false, not, ◌&&◌, ◌||◌, List, [], ◌∷◌, Bytes, text,
  same, same_iff, if◌then◌else◌, arith, Bool-cases, inl, inr,
}
use star_konflict.Base.Int.{pos, diff, ◌-ℤ◌}
use star_konflict.Base.Map.{lookup, insert, lookup-insert, bytes_eq}
use star_konflict.Dashboard.{
  Element, Store, Counts, KindMeta, no_counts, or_none, count_state, count_kinds, kind_meta,
  kind_row, add_row, add_rows, kind_rows, totals,
}

abbrev pub one_if : Bool → ℕ
one_if b = if b then 1 else 0

-- How many elements pass a test.
abbrev pub having : (Element → Bool) → List (Bytes × Element) → ℕ
having test [] = 0
having test ((_, e) ∷ es) = one_if (test e) + having test es

pub having-add :
    (f g h : Element → Bool) (es : List (Bytes × Element))
    → ((e : Element) → one_if (f e) ≡ one_if (g e) + one_if (h e))
    → having f es ≡ having g es + having h es
having-add f g h [] p = omega arith
having-add f g h ((_, e) ∷ es) p = omega (arith, p e, having-add f g h es p)

abbrev pub is_decoded : Element → Bool
is_decoded e = same e.state (text "decoded")

abbrev pub is_undecoded : Element → Bool
is_undecoded e = same e.state (text "observed_undecoded")

abbrev pub is_kind : Bytes → Element → Bool
is_kind k e = same e.kind k

-- The counts of one kind, on from `c`.
abbrev tallied : Bytes → Counts → List (Bytes × Element) → Counts
tallied k c [] = c
tallied k c ((_, e) ∷ es) = tallied k (if is_kind k e then count_state e.state c else c) es

one_more :
    (k : Bytes) (e : Element) (m : List (Bytes × Counts))
    → or_none (lookup k (insert e.kind (count_state e.state (or_none (lookup e.kind m))) m))
      ≡ (if is_kind k e then count_state e.state (or_none (lookup k m)) else or_none (lookup k m))
one_more k e m = elim (Bool-cases (same e.kind k)) [
  | inl y ↦
      let here : e.kind ≡ k = (same_iff e.kind k).0 y in
      rw (lookup-insert e.kind k (count_state e.state (or_none (lookup e.kind m))) m, y)
        (unfold or_none in ap (λ j. count_state e.state (or_none (lookup j m))) here)
  | inr n ↦ rw (lookup-insert e.kind k (count_state e.state (or_none (lookup e.kind m))) m, n)
]

or_none-count_kinds :
    (k : Bytes) (es : List (Bytes × Element)) (m : List (Bytes × Counts))
    → or_none (lookup k (count_kinds es m)) ≡ tallied k (or_none (lookup k m)) es
unfolding count_kinds
or_none-count_kinds k [] m = refl
or_none-count_kinds k ((n, e) ∷ es) m =
    or_none-count_kinds k es _ ∙ ap (λ c. tallied k c es) (one_more k e m)

-- No state is both.
disjoint : (e : Element) → is_decoded e ≡ true → is_undecoded e ≡ false
disjoint e h = rw ((same_iff e.state (text "decoded")).0 h) (unfold same text in refl)

abbrev plus : Counts → Counts → Counts
plus a b = record {
  known = a.known + b.known;
  decoded = a.decoded + b.decoded;
  undecoded = a.undecoded + b.undecoded;
}

-- The numbers of the elements that pass a test, by state.
abbrev numbers : (Element → Bool) → List (Bytes × Element) → Counts
numbers test es = record {
  known = having test es;
  decoded = having (λ e. test e && is_decoded e) es;
  undecoded = having (λ e. test e && is_undecoded e) es;
}

abbrev ones : (Element → Bool) → Element → Counts
ones test e = record {
  known = one_if (test e);
  decoded = one_if (test e && is_decoded e);
  undecoded = one_if (test e && is_undecoded e);
}

one_counted :
    (k : Bytes) (e : Element) (c : Counts)
    → (if is_kind k e then count_state e.state c else c) ≡ plus c (ones (is_kind k) e)
unfolding count_state
one_counted k e c = ground (arith, disjoint e)

tallied-numbers :
    (k : Bytes) (es : List (Bytes × Element)) (c : Counts)
    → tallied k c es ≡ plus c (numbers (is_kind k) es)
tallied-numbers k [] c = ground arith
tallied-numbers k ((n, e) ∷ es) c =
    tallied-numbers k es _
    ∙ ap (λ t. plus t (numbers (is_kind k) es)) (one_counted k e c)
    ∙ ground arith

row_numbers :
    (m : KindMeta) (es : List (Bytes × Element))
    → (kind_row (count_kinds es []) m).counts ≡ numbers (is_kind m.key) es
unfolding kind_row lookup or_none
row_numbers m es =
    or_none-count_kinds m.key es [] ∙ tallied-numbers m.key es no_counts ∙ ground arith

-- The kinds that have a row.
abbrev pub is_shown : Element → Bool
is_shown e =
    is_kind (text "message_type") e
    || (is_kind (text "async_request") e || is_kind (text "notification") e)

-- An element has one kind.
exclusive :
    (e : Element) (t : Bool)
    → one_if (is_kind (text "message_type") e && t)
        + one_if (is_kind (text "async_request") e && t)
        + one_if (is_kind (text "notification") e && t)
      ≡ one_if (is_shown e && t)
exclusive e t = elim (Bool-cases (same e.kind (text "message_type"))) [
  | inl y ↦
      let k = (same_iff e.kind (text "message_type")).0 y in rw k (unfold same text in omega arith)
  | inr n ↦ elim (Bool-cases (same e.kind (text "async_request"))) [
    | inl y ↦
        let k = (same_iff e.kind (text "async_request")).0 y in
        rw k (unfold same text in omega arith)
    | inr m ↦ rw (n, m) (ground arith)
  ]
]

one_kind :
    (test : Element → Bool) (es : List (Bytes × Element))
    → having (λ e. is_kind (text "message_type") e && test e) es
        + having (λ e. is_kind (text "async_request") e && test e) es
        + having (λ e. is_kind (text "notification") e && test e) es
      ≡ having (λ e. is_shown e && test e) es
one_kind test [] = omega arith
one_kind test ((n, e) ∷ es) = omega (arith, one_kind test es, exclusive e (test e))

one_kind_known :
    (es : List (Bytes × Element))
    → having (is_kind (text "message_type")) es
        + having (is_kind (text "async_request")) es
        + having (is_kind (text "notification")) es
      ≡ having is_shown es
one_kind_known [] = omega arith
one_kind_known ((n, e) ∷ es) = omega (arith, one_kind_known es, one_shown e)
  where
    one_shown :
        (d : Element)
        → one_if (is_kind (text "message_type") d)
            + one_if (is_kind (text "async_request") d)
            + one_if (is_kind (text "notification") d)
          ≡ one_if (is_shown d)
    one_shown d = ground (arith, exclusive d true)

-- Neither of the two states in which an element has been seen.
abbrev pub is_never : Element → Bool
is_never e = not (is_decoded e || is_undecoded e)

abbrev message_types : KindMeta
message_types = record {
  key = text "message_type";
  label = text "Message types";
  prefix = text "cmd_type";
}

abbrev async_requests : KindMeta
async_requests = record {
  key = text "async_request";
  label = text "Async requests";
  prefix = text "AC_*";
}

abbrev notifications : KindMeta
notifications = record {
  key = text "notification";
  label = text "Notifications";
  prefix = text "SN_*";
}

shown_counts :
    (st : Store)
    → add_rows no_counts (kind_rows st) ≡ record {
      known = having is_shown st.elements;
      decoded = having (λ e. is_shown e && is_decoded e) st.elements;
      undecoded = having (λ e. is_shown e && is_undecoded e) st.elements;
    }
unfolding add_rows add_row kind_rows kind_meta
shown_counts st =
    let es = st.elements in
    rw (row_numbers message_types es, row_numbers async_requests es, row_numbers notifications es)
      (ground (arith, one_kind_known es, one_kind is_decoded es, one_kind is_undecoded es))

split_seen :
    (e : Element)
    → one_if (is_shown e && not (is_never e))
      ≡ one_if (is_shown e && is_decoded e) + one_if (is_shown e && is_undecoded e)
split_seen e = ground (arith, disjoint e)

pub split_shown :
    (e : Element)
    → one_if (is_shown e)
      ≡ one_if (is_shown e && not (is_never e)) + one_if (is_shown e && is_never e)
split_shown e = ground arith

subtracted :
    (known done seen left : ℕ)
    → known ≡ done + seen + left
    → (pos known -ℤ pos done) -ℤ pos seen ≡ pos left
unfolding ◌-ℤ◌ diff
subtracted known done seen left h = ground arith

-- The totals of a store, whatever it holds: of the elements of the three kinds, `Known` is their
-- number, `Decoded` and `Undecoded` the numbers of those in either state, `Observed` the number of
-- both together, and `Never`, which is computed as a difference, the number of all others.
pub totals_count :
    (st : Store)
    → let t = totals st in
      (t.known ≡ having is_shown st.elements)
      × (t.decoded ≡ having (λ e. is_shown e && is_decoded e) st.elements)
      × (t.undecoded ≡ having (λ e. is_shown e && is_undecoded e) st.elements)
      × (t.observed ≡ having (λ e. is_shown e && not (is_never e)) st.elements)
      × (t.never ≡ pos (having (λ e. is_shown e && is_never e) st.elements))
unfolding totals
totals_count st =
    let es = st.elements in
    let c = shown_counts st in
    let seen =
      having-add (λ e. is_shown e && not (is_never e)) (λ e. is_shown e && is_decoded e)
        (λ e. is_shown e && is_undecoded e) es split_seen in
    let all =
      having-add is_shown (λ e. is_shown e && not (is_never e)) (λ e. is_shown e && is_never e) es
        split_shown in
    (
      ap (λ t. t.known) c,
      ap (λ t. t.decoded) c,
      ap (λ t. t.undecoded) c,
      rw c (sym seen),
      rw c (subtracted _ _ _ _ (omega (arith, seen, all))),
    )
