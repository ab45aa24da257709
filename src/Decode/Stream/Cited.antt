-- ===== src/Decode/Stream/Cited.antt =====
-- What it means that frames are cited once each, in terms of equality of frames alone, and that
-- `take` of sc-capture/internal/decode/pipeline.go does it.
use mathlib.Core.Logic.{⊎_elim}
use mathlib.Core.List.{Memᴰ}
use mathlib.Core.List.Memᴰ
use star_konflict.Base.{
  ℕ, ◌≤◌, ◌<◌, ◌⊎◌, ◌↔◌, same_iff, true, false, List, [], ◌∷◌, ◌++◌, ◌≡◌, refl, sym, ap, ◌∙◌,
  length, take, drop, arith, Bool-cases, inl, inr, append_assoc, append-nil,
}
use star_konflict.Decode.Record.{FrameRef}
use star_konflict.Decode.Stream.{Contribution, same_ref, cite, is_seen, take_frames}
use star_konflict.Decode.Stream.Ledger.{owners, cited, Filled, take_frames-cited}

-- `out` is what stands first of each frame of `rs`, in the order of `rs`, without those of `seen`.
pub data Firsts : List FrameRef → List FrameRef → List FrameRef → Type 0 where
  done : (seen : List FrameRef) → Firsts seen [] []
  old :
      (seen rs out : List FrameRef) (r : FrameRef)
      → Memᴰ r seen
      → Firsts seen rs out
      → Firsts seen (r ∷ rs) out
  first :
      (seen rs out : List FrameRef) (r : FrameRef)
      → ¬ Memᴰ r seen
      → Firsts (seen ++ r ∷ []) rs out
      → Firsts seen (r ∷ rs) (r ∷ out)

abbrev pub Once : List FrameRef → Type 0
Once [] = Unit
Once (r ∷ rs) = (¬ Memᴰ r rs) × Once rs

-- `out` has the frames of `rs` and no other, each once, in the order of their first places.
pub record EachOnce (rs out : List FrameRef) : Type 0 where
  pub covers : (r : FrameRef) → Memᴰ r rs → Memᴰ r out
  pub only : (r : FrameRef) → Memᴰ r out → Memᴰ r rs
  pub once : Once out
  pub in_order : Firsts [] rs out

Firsts-only :
    (seen rs out : List FrameRef) (r : FrameRef) → Firsts seen rs out → Memᴰ r out → Memᴰ r rs
Firsts-only seen rs out r (done _) m = m
Firsts-only seen rs out r (old _ qs _ q k f) m = Memᴰ.tail (Firsts-only seen qs out r f m)
Firsts-only seen rs out r (first _ qs os q k f) m =
    ⊎_elim (λ e. Memᴰ.head e) (λ t. Memᴰ.tail (Firsts-only (seen ++ q ∷ []) qs os r f t))
      (Memᴰ.cases_cons m)

seen_or_cited :
    (seen rs out : List FrameRef) (r : FrameRef)
    → Firsts seen rs out
    → Memᴰ r rs
    → Memᴰ r seen ⊎ Memᴰ r out
seen_or_cited seen rs out r (done _) m = inr m
seen_or_cited seen rs out r (old _ qs _ q k f) m =
    ⊎_elim (λ e. inl (Memᴰ.cast e k)) (λ t. seen_or_cited seen qs out r f t) (Memᴰ.cases_cons m)
seen_or_cited seen rs out r (first _ qs os q k f) m =
    ⊎_elim (λ e. inr (Memᴰ.head e))
      (λ t.
        ⊎_elim
          (λ s.
            ⊎_elim inl (λ l. inr (Memᴰ.head (Memᴰ.eq_of_singleton l))) (Memᴰ.append_cases seen s))
          (λ o. inr (Memᴰ.tail o)) (seen_or_cited (seen ++ q ∷ []) qs os r f t))
      (Memᴰ.cases_cons m)

Firsts-fresh :
    (seen rs out : List FrameRef) (r : FrameRef) → Firsts seen rs out → Memᴰ r seen → ¬ Memᴰ r out
Firsts-fresh seen rs out r (done _) s m = Memᴰ.not-nil m
Firsts-fresh seen rs out r (old _ qs _ q k f) s m = Firsts-fresh seen qs out r f s m
Firsts-fresh seen rs out r (first _ qs os q k f) s m =
    ⊎_elim (λ e. k (Memᴰ.cast (sym e) s))
      (λ t. Firsts-fresh (seen ++ q ∷ []) qs os r f (Memᴰ.append_left _ s) t) (Memᴰ.cases_cons m)

Firsts-Once : (seen rs out : List FrameRef) → Firsts seen rs out → Once out
Firsts-Once seen rs out (done _) = tt
Firsts-Once seen rs out (old _ qs _ q k f) = Firsts-Once seen qs out f
Firsts-Once seen rs out (first _ qs os q k f) = (
  Firsts-fresh (seen ++ q ∷ []) qs os q f (Memᴰ.append_right seen (Memᴰ.head refl)),
  Firsts-Once (seen ++ q ∷ []) qs os f,
)

Firsts-EachOnce : (rs out : List FrameRef) → Firsts [] rs out → EachOnce rs out
Firsts-EachOnce rs out f = record {
  covers = λ r m. ⊎_elim (λ n. absurd (Memᴰ.not-nil n)) (λ o. o) (seen_or_cited [] rs out r f m);
  only = λ r m. Firsts-only [] rs out r f m;
  once = Firsts-Once [] rs out f;
  in_order = f;
}

same_ref_iff : (a b : FrameRef) → (same_ref a b ≡ true) ↔ (a ≡ b)
unfolding same_ref
same_ref_iff a b = (
  λ h. ground (arith, h, same_iff a.segment b.segment),
  λ e. ground (arith, ap (λ x. x.segment) e, ap (λ x. x.index) e, same_iff a.segment b.segment),
)

is_seen-Memᴰ : (r : FrameRef) (out : List FrameRef) → is_seen r out ≡ true → Memᴰ r out
unfolding is_seen
is_seen-Memᴰ r [] h = cc
is_seen-Memᴰ r (o ∷ out) h = elim (Bool-cases (same_ref o r)) [
  | inl y ↦ Memᴰ.head (sym ((same_ref_iff o r).0 y))
  | inr n ↦ Memᴰ.tail (is_seen-Memᴰ r out (ground (arith, h, n)))
]

not_seen : (r : FrameRef) (out : List FrameRef) → is_seen r out ≡ false → ¬ Memᴰ r out
unfolding is_seen
not_seen r [] h m = Memᴰ.not-nil m
not_seen r (o ∷ out) h m = elim (Bool-cases (same_ref o r)) [
  | inl y ↦ ground (arith, h, y)
  | inr n ↦
      ⊎_elim (λ e. ground (arith, n, (same_ref_iff o r).1 (sym e)))
        (λ t. not_seen r out (ground (arith, h, n)) t) (Memᴰ.cases_cons m)
]

cited-Firsts :
    (rs seen : List FrameRef)
    → (out : List FrameRef) × (cited seen rs ≡ seen ++ out) × Firsts seen rs out
unfolding cite
cited-Firsts [] seen = ([], sym (append-nil seen), done seen)
cited-Firsts (r ∷ rs) seen = elim (Bool-cases (is_seen r seen)) [
  | inl y ↦
      let (out, e, f) = cited-Firsts rs seen in
      (out, rw y e, old seen rs out r (is_seen-Memᴰ r seen y) f)
  | inr n ↦
      let (out, e, f) = cited-Firsts rs (seen ++ r ∷ []) in
      (
        r ∷ out,
        rw n (e ∙ append_assoc seen (r ∷ []) out),
        first seen rs out r (not_seen r seen n) f,
      )
]

pub cited-EachOnce : (rs : List FrameRef) → EachOnce rs (cited [] rs)
cited-EachOnce rs = let (out, e, f) = cited-Firsts rs [] in rw e (Firsts-EachOnce rs out f)

-- For a ledger whose entries carry bytes and that owns n bytes at least, n > 0, `take` cites the
-- frames of the first n bytes and no other, each once and in the order of their first bytes; the
-- ledger that is left owns the other bytes, and its entries carry bytes too.
pub take_frames-EachOnce :
    (n : ℕ) (ledger : List Contribution)
    → Filled ledger
    → 0 < n
    → n ≤ length (owners ledger)
    → EachOnce (take n (owners ledger)) (take_frames n ledger).0
      × (owners (take_frames n ledger).1 ≡ drop n (owners ledger))
      × Filled (take_frames n ledger).1
take_frames-EachOnce n ledger f p h =
    let k = take_frames-cited n ledger f p h in
    (rw k.0 (cited-EachOnce (take n (owners ledger))), k.1, k.2)
