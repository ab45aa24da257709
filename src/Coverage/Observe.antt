-- ===== src/Coverage/Observe.antt =====
-- What sightings and loading do to the entries of sc-capture/internal/coverage/store.go.
use star_konflict.Base.{
  ℕ, ◌≤◌, Bool, true, false, List, [], ◌∷◌, Bytes, same, same_iff, Option, none, some, ltb,
  if◌then◌else◌, ◌≡◌, refl, sym, ap, ◌∙◌, arith, Bool-cases, inl, inr, All,
}
use mathlib.Core.Path.{subst}
use star_konflict.Base.Map.{
  lookup, bytes_eq, lookup-insert_self, lookup-insert_ne, Every, Every-insert, Every-lookup,
}
use star_konflict.Scproto.Tables.{Kind, Element, key, Tables}
use star_konflict.Coverage.{
  State, decoded, observed_undecoded, never_observed, other, rank, Entry, Document, new_entry,
  add_missing, fold_universe, entry_or_new, raised, is_unseen, sighted, observe,
}

-- The rank of the entry under a key; an element without an entry counts as never observed.
abbrev rank_of : Option Entry → ℕ
rank_of none = 0
rank_of (some e) = rank e.state

abbrev pub rank_at : Bytes → Document → ℕ
rank_at k d = rank_of (lookup k d.elements)

abbrev pub level : Bool → ℕ
level done = if done then 2 else 1

abbrev pub higher : ℕ → ℕ → ℕ
higher a b = if ltb a b then b else a

rank-raised : (s : State) (done : Bool) → rank (raised s done) ≡ higher (rank s) (level done)
unfolding raised rank
rank-raised decoded true = refl
rank-raised decoded false = refl
rank-raised observed_undecoded true = refl
rank-raised observed_undecoded false = refl
rank-raised never_observed true = refl
rank-raised never_observed false = refl
rank-raised (other t) true = refl
rank-raised (other t) false = refl

higher_least : (a b : ℕ) → a ≤ higher a b
higher_least a b = ground arith

-- What a sighting leaves of an entry: its name and its place, and the first sighting.
pub record Kept (e f : Entry) : Type 0 where
  pub kind_kept : f.kind ≡ e.kind
  pub id_kept : f.id ≡ e.id
  pub name_kept : f.name ≡ e.name
  pub session_kept : f.first_seen_session ≡ e.first_seen_session
  pub time_kept : f.first_seen_utc ≡ e.first_seen_utc
  pub rank_grows : rank e.state ≤ rank f.state

module _ (names : Tables) (d : Document) (kind : Kind) (id : ℕ) (done : Bool) (session : Bytes)
    (at : ℕ) where
  abbrev now : Document
  now = observe names d kind id done session at

  observe_own :
      lookup (key kind id) now.elements
      ≡ some
          (sighted (entry_or_new names kind id (lookup (key kind id) d.elements)) done session at)
  unfolding observe
  observe_own = lookup-insert_self (key kind id) _ d.elements

  observe_others :
      (k : Bytes) → same (key kind id) k ≡ false → lookup k now.elements ≡ lookup k d.elements
  unfolding observe
  observe_others k h = lookup-insert_ne (key kind id) k _ d.elements h

  rank_new : (o : Option Entry) → rank (entry_or_new names kind id o).state ≡ rank_of o
  unfolding entry_or_new new_entry rank
  rank_new none = refl
  rank_new (some e) = refl

  observe_own_rank : rank_at (key kind id) now ≡ higher (rank_at (key kind id) d) (level done)
  unfolding sighted
  observe_own_rank =
      ap rank_of observe_own
      ∙ rank-raised _ done
      ∙ ap (λ r. higher r (level done)) (rank_new (lookup (key kind id) d.elements))

  -- A sighting raises the rank of its own key to that of the sighting, if that is higher, and no other's.
  pub observe_rank :
      (k : Bytes)
      → rank_at k now
        ≡ (if same (key kind id) k then higher (rank_at k d) (level done) else rank_at k d)
  observe_rank k = elim (Bool-cases (same (key kind id) k)) [
    | inl y ↦ rw y (
        subst (λ j. rank_at j now ≡ higher (rank_at j d) (level done))
          ((same_iff (key kind id) k).0 y) observe_own_rank)
    | inr u ↦ rw u (ap rank_of (observe_others k u))
  ]

  own-Kept :
      (e : Entry)
      → lookup (key kind id) d.elements ≡ some e
      → is_unseen e.first_seen_session ≡ false
      → (f : Entry) × (lookup (key kind id) now.elements ≡ some f) × Kept e f
  unfolding entry_or_new sighted
  own-Kept e h seen =
      let f = sighted e done session at in
      let found : lookup (key kind id) now.elements ≡ some f =
        observe_own ∙ ap (λ o. some (sighted (entry_or_new names kind id o) done session at)) h in
      (
        f,
        found,
        rw seen (record {
          kind_kept = refl;
          id_kept = refl;
          name_kept = refl;
          session_kept = refl;
          time_kept = refl;
          rank_grows =
              omega (arith, rank-raised e.state done, higher_least (rank e.state) (level done));
        }),
      )

  -- An entry that has a first sighting loses nothing by a later sighting, of its own element or
  -- of another: its kind, id and name, the session and time of its first sighting stay, and the
  -- rank of its state does not fall.
  pub observe_keeps :
      (k : Bytes) {e : Entry}
      → lookup k d.elements ≡ some e
      → is_unseen e.first_seen_session ≡ false
      → (f : Entry) × (lookup k now.elements ≡ some f) × Kept e f
  observe_keeps k {e} h seen = elim (Bool-cases (same (key kind id) k)) [
    | inl y ↦
        subst (λ j. (f : Entry) × (lookup j now.elements ≡ some f) × Kept e f)
          ((same_iff (key kind id) k).0 y)
          (own-Kept e (ap (λ j. lookup j d.elements) ((same_iff (key kind id) k).0 y) ∙ h) seen)
    | inr u ↦ (
      e,
      observe_others k u ∙ h,
      record {
        kind_kept = refl;
        id_kept = refl;
        name_kept = refl;
        session_kept = refl;
        time_kept = refl;
        rank_grows = omega arith;
      },
    )
  ]

pub record Sighting : Type 0 where
  pub kind : Kind
  pub id : ℕ
  pub done : Bool
  pub session : Bytes
  pub at : ℕ

module _ (names : Tables) where
  abbrev pub observe_all : Document → List Sighting → Document
  observe_all d [] = d
  observe_all d (s ∷ ss) = observe_all (observe names d s.kind s.id s.done s.session s.at) ss

  -- The highest level at which a key was sighted.
  abbrev pub best : Bytes → ℕ → List Sighting → ℕ
  best k r [] = r
  best k r (s ∷ ss) = best k (if same (key s.kind s.id) k then higher r (level s.done) else r) ss

  -- After any sightings the rank of every element is the highest level at which it was sighted,
  -- its old rank included.
  pub observe_all_rank :
      (ss : List Sighting) (d : Document) (k : Bytes)
      → rank_at k (observe_all d ss) ≡ best k (rank_at k d) ss
  observe_all_rank [] d k = refl
  observe_all_rank (s ∷ ss) d k =
      observe_all_rank ss (observe names d s.kind s.id s.done s.session s.at) k
      ∙ ap (λ r. best k r ss) (observe_rank names d s.kind s.id s.done s.session s.at k)

-- Each entry stands under the key of its own kind and id.
abbrev pub Keyed : Document → Type 0
Keyed d = Every (λ k e. k ≡ key e.kind e.id) d.elements

entry_or_new_key :
    (names : Tables) (d : Document) (kind : Kind) (id : ℕ) (o : Option Entry)
    → Keyed d
    → lookup (key kind id) d.elements ≡ o
    → let e = entry_or_new names kind id o in key kind id ≡ key e.kind e.id
unfolding entry_or_new new_entry
entry_or_new_key names d kind id none v h = refl
entry_or_new_key names d kind id (some e) v h =
    Every-lookup (λ k e. k ≡ key e.kind e.id) (key kind id) d.elements h v

-- If each entry stands under the key of its own kind and id, it does so after a sighting of any
-- element.
pub observe-Keyed :
    (names : Tables) (d : Document) (kind : Kind) (id : ℕ) (done : Bool) (session : Bytes) (at : ℕ)
    → Keyed d
    → Keyed (observe names d kind id done session at)
unfolding observe sighted
observe-Keyed names d kind id done session at v =
    Every-insert (λ k e. k ≡ key e.kind e.id) (key kind id) _ d.elements
      (entry_or_new_key names d kind id _ v refl) v

add_missing_keeps :
    (x : Element) (k : Bytes) {e : Entry} (m : List (Bytes × Entry)) (o : Option Entry)
    → lookup (key x.kind x.id) m ≡ o
    → lookup k m ≡ some e
    → lookup k (add_missing x o m) ≡ some e
unfolding add_missing
add_missing_keeps x k m (some f) g h = h
add_missing_keeps x k {e} m none g h = elim (Bool-cases (same (key x.kind x.id) k)) [
  | inl y ↦
      let clash : some e ≡ none =
        sym h ∙ sym (ap (λ j. lookup j m) ((same_iff (key x.kind x.id) k).0 y)) ∙ g in
      cc clash
  | inr u ↦ lookup-insert_ne (key x.kind x.id) k _ m u ∙ h
]

-- Folding the universe into a stored document leaves every stored entry as it is.
pub fold_universe_keeps :
    (es : List Element) (m : List (Bytes × Entry)) (k : Bytes) {e : Entry}
    → lookup k m ≡ some e
    → lookup k (fold_universe es m) ≡ some e
unfolding fold_universe
fold_universe_keeps [] m k h = h
fold_universe_keeps (x ∷ es) m k h =
    fold_universe_keeps es (add_missing x (lookup (key x.kind x.id) m) m) k
      (add_missing_keeps x k m _ refl h)

add_missing_adds :
    (x : Element) (m : List (Bytes × Entry)) (o : Option Entry)
    → lookup (key x.kind x.id) m ≡ o
    → (e : Entry) × (lookup (key x.kind x.id) (add_missing x o m) ≡ some e)
unfolding add_missing
add_missing_adds x m (some e) h = (e, h)
add_missing_adds x m none h = (_, lookup-insert_self (key x.kind x.id) _ m)

-- After loading, every element of the universe has an entry.
pub fold_universe_covers :
    (es : List Element) (m : List (Bytes × Entry))
    → All (λ x. (e : Entry) × (lookup (key x.kind x.id) (fold_universe es m) ≡ some e)) es
unfolding fold_universe
fold_universe_covers [] m = tt
fold_universe_covers (x ∷ es) m =
    let n = add_missing x (lookup (key x.kind x.id) m) m in
    let (e, h) = add_missing_adds x m _ refl in
    ((e, fold_universe_keeps es n (key x.kind x.id) h), fold_universe_covers es n)
