-- ===== src/Flow/Changes.antt =====
-- `AnnounceDedicated` and `MarkDesync` of sc-capture/internal/flow/flow.go keep a table valid, and
-- what they do to the entry of a flow.
use star_konflict.Base.{
  ℕ, suc, List, [], ◌∷◌, Bytes, ◌≡◌, refl, sym, ap, ◌∙◌, inl, inr, arith, Bool-cases, Option-cases,
  some, none, Option,
}
use star_konflict.Base.Map.{lookup, Every, Every-lookup, keys}
use star_konflict.Flow.Keys.{Key, key_eq}
use star_konflict.Flow.{
  Table, Connection, announce_dedicated, reclassify, reclassify_all, mark_connection, mark_found,
  mark_desync,
}
use star_konflict.Flow.Invariant.{Fits, Numbered, IsValid, write_back}

abbrev pub changed : (Connection → Connection) → Option Connection → Option Connection
changed f none = none
changed f (some c) = some (f c)

module _ (ip : Bytes) (p : ℕ) where
  reclassify-kept :
      (c : Connection)
      → ((reclassify ip p c).conn_id ≡ c.conn_id)
        × ((reclassify ip p c).key ≡ c.key)
        × ((reclassify ip p c).endpoints ≡ c.endpoints)
  unfolding reclassify
  reclassify-kept c = ground arith

  reclassify_all-Fits :
      (m : List (Key × Connection)) → Every Fits m → Every Fits (reclassify_all ip p m)
  unfolding reclassify_all
  reclassify_all-Fits [] h = tt
  reclassify_all-Fits ((k, c) ∷ m) h =
      let (_, own, same_ends) = reclassify-kept c in
      (
        record { own_key = own ∙ h.0.own_key; own_ends = rw same_ends h.0.own_ends },
        reclassify_all-Fits m h.1,
      )

  reclassify_all-keys : (m : List (Key × Connection)) → keys (reclassify_all ip p m) ≡ keys m
  unfolding reclassify_all
  reclassify_all-keys [] = refl
  reclassify_all-keys ((k, c) ∷ m) = ap (λ t. k ∷ t) (reclassify_all-keys m)

  reclassify_all-Numbered :
      (i : ℕ) (m : List (Key × Connection)) → Numbered i m → Numbered i (reclassify_all ip p m)
  unfolding reclassify_all
  reclassify_all-Numbered i [] h = tt
  reclassify_all-Numbered i ((k, c) ∷ m) h =
      ((reclassify-kept c).0 ∙ h.0, reclassify_all-Numbered (suc i) m h.1)

  pub lookup-reclassify_all :
      (k : Key) (m : List (Key × Connection))
      → lookup k (reclassify_all ip p m) ≡ changed (reclassify ip p) (lookup k m)
  unfolding lookup reclassify_all
  lookup-reclassify_all k [] = refl
  lookup-reclassify_all k ((j, c) ∷ m) = elim (Bool-cases (key_eq.beq j k)) [
    | inl y ↦ rw y
    | inr n ↦ rw n (lookup-reclassify_all k m)
  ]

pub announce_dedicated-IsValid :
    (t : Table) (ip : Bytes) (p session_id : ℕ)
    → IsValid t
    → IsValid (announce_dedicated t ip p session_id)
unfolding announce_dedicated
announce_dedicated-IsValid t ip p session_id v = record {
  fits = reclassify_all-Fits ip p t.by_key v.fits;
  ordered = v.ordered ∙ sym (reclassify_all-keys ip p t.by_key);
  counted = v.counted;
  numbered = reclassify_all-Numbered ip p 0 t.by_key v.numbered;
}

mark_connection-kept :
    (c : Connection) (frame : ℕ)
    → ((mark_connection c frame).conn_id ≡ c.conn_id)
      × ((mark_connection c frame).key ≡ c.key)
      × ((mark_connection c frame).endpoints ≡ c.endpoints)
unfolding mark_connection
mark_connection-kept c frame = ground arith

pub mark_desync-IsValid :
    (t : Table) (k : Key) (frame : ℕ) → IsValid t → IsValid (mark_desync t k frame)
unfolding mark_desync mark_found
mark_desync-IsValid t k frame v = elim (Option-cases (lookup k t.by_key)) [
  | inl f ↦ rw f v
  | inr (c, f) ↦
      let (id, own, same_ends) = mark_connection-kept c frame in
      let fit = Every-lookup Fits k t.by_key f v.fits in
      rw f (
        write_back t k c (mark_connection c frame) v f id
          (record { own_key = own ∙ fit.own_key; own_ends = rw same_ends fit.own_ends }))
]
