-- ===== src/Decode/Stream/Ledger.antt =====
-- The ledger of sc-capture/internal/decode/pipeline.go against a list that names, byte by byte, the
-- frame that carried it.
use star_konflict.Base.{
  ℕ, zero, suc, ◌-◌, ◌≤◌, ◌<◌, true, false, List, [], ◌∷◌, ◌++◌, ◌≡◌, refl, sym, ap, ◌∙◌, same_refl,
  ltb, ◌==◌, length, take, drop, drop-nil, replicate, arith, Bool-cases, ltb→lt, ltb-false→le, inl,
  inr, length-append,
}
use star_konflict.Decode.Record.{FrameRef}
use star_konflict.Decode.Stream.{
  Contribution, same_ref, cite, is_seen, take_loop, take_frames, or_uncited,
}

-- The frame of each buffered byte, in order.
abbrev pub owners : List Contribution → List FrameRef
owners [] = []
owners (c ∷ cs) = replicate c.n c.ref ++ owners cs

-- What the loop of `take` builds when it looks at each byte's frame.
abbrev pub cited : List FrameRef → List FrameRef → List FrameRef
cited out [] = out
cited out (r ∷ rs) = cited (cite r out) rs

abbrev pub Filled : List Contribution → Type 0
Filled [] = Unit
Filled (c ∷ cs) = (0 < c.n) × Filled cs

same_ref_refl : (r : FrameRef) → same_ref r r ≡ true
unfolding same_ref
same_ref_refl r = ground (arith, same_refl r.segment)

is_seen-append : (r : FrameRef) (out : List FrameRef) → is_seen r (out ++ r ∷ []) ≡ true
unfolding is_seen
is_seen-append r [] = rw (same_ref_refl r)
is_seen-append r (o ∷ out) = ground (arith, is_seen-append r out)

cite_seen : (r : FrameRef) (out : List FrameRef) → is_seen r (cite r out) ≡ true
unfolding cite
cite_seen r out = elim (Bool-cases (is_seen r out)) [
  | inl y ↦ rw (y, y)
  | inr u ↦ rw u (is_seen-append r out)
]

known_cite : (r : FrameRef) (out : List FrameRef) → is_seen r out ≡ true → cite r out ≡ out
unfolding cite
known_cite r out h = rw h

cite_twice : (r : FrameRef) (out : List FrameRef) → cite r (cite r out) ≡ cite r out
cite_twice r out = known_cite r (cite r out) (cite_seen r out)

cited-replicate :
    (n : ℕ) (r : FrameRef) (out : List FrameRef) → cited out (replicate (suc n) r) ≡ cite r out
cited-replicate zero r out = refl
cited-replicate (suc n) r out = cited-replicate n r (cite r out) ∙ cite_twice r out

cited-replicate_some :
    (n : ℕ) (r : FrameRef) (out : List FrameRef) → 0 < n → cited out (replicate n r) ≡ cite r out
cited-replicate_some zero r out h = ground arith
cited-replicate_some (suc n) r out h = cited-replicate n r out

cited-append : (xs ys out : List FrameRef) → cited out (xs ++ ys) ≡ cited (cited out xs) ys
cited-append [] ys out = refl
cited-append (x ∷ xs) ys out = cited-append xs ys (cite x out)

take-replicate :
    (n m : ℕ) (r : FrameRef) (ys : List FrameRef)
    → n ≤ m
    → (take n (replicate m r ++ ys) ≡ replicate n r)
      × (drop n (replicate m r ++ ys) ≡ replicate (m - n) r ++ ys)
take-replicate zero m r ys h = (refl, ap (λ k. replicate k r ++ ys) (omega arith))
take-replicate (suc n) zero r ys h = ground arith
take-replicate (suc n) (suc m) r ys h =
    let (t, d) = take-replicate n m r ys (omega arith) in
    (ap (λ t. r ∷ t) t, d ∙ ap (λ k. replicate k r ++ ys) (omega arith))

take_past :
    (n m : ℕ) (r : FrameRef) (ys : List FrameRef)
    → m ≤ n
    → (take n (replicate m r ++ ys) ≡ replicate m r ++ take (n - m) ys)
      × (drop n (replicate m r ++ ys) ≡ drop (n - m) ys)
take_past n zero r ys h = (ap (λ k. take k ys) (omega arith), ap (λ k. drop k ys) (omega arith))
take_past zero (suc m) r ys h = ground arith
take_past (suc n) (suc m) r ys h =
    let (t, d) = take_past n m r ys (omega arith) in
    let less : n - m ≡ suc n - suc m = omega arith in
    (ap (λ t. r ∷ t) (t ∙ ap (λ k. replicate m r ++ take k ys) less), d ∙ ap (λ k. drop k ys) less)

-- What `take` owes for n bytes of a ledger, on top of the frames `out` that it already cites.
record Taken (n : ℕ) (cs : List Contribution) (out : List FrameRef)
    (res : List FrameRef × List Contribution) : Type 0 where
  cites : res.0 ≡ cited out (take n (owners cs))
  keeps : owners res.1 ≡ drop n (owners cs)
  filled : Filled res.1

-- The bytes end inside the first entry.
split_entry :
    (n : ℕ) (c : Contribution) (cs : List Contribution) (out : List FrameRef)
    → suc n < c.n
    → Filled cs
    → Taken (suc n) (c ∷ cs) out (cite c.ref out, record c { n = c.n - suc n } ∷ cs)
split_entry n c cs out h f =
    let (t, d) = take-replicate (suc n) c.n c.ref (owners cs) (omega arith) in
    record {
      cites = sym (ap (cited out) t ∙ cited-replicate n c.ref out);
      keeps = sym d;
      filled = (omega arith, f);
    }

-- The bytes use up the first entry.
whole_entry :
    (n : ℕ) (c : Contribution) (cs : List Contribution) (out : List FrameRef)
    → c.n ≤ suc n
    → 0 < c.n
    → {res : List FrameRef × List Contribution} → Taken (suc n - c.n) cs (cite c.ref out) res
    → Taken (suc n) (c ∷ cs) out res
whole_entry n c cs out h p k =
    let (t, d) = take_past (suc n) c.n c.ref (owners cs) h in
    let later = take (suc n - c.n) (owners cs) in
    let first : cited out (replicate c.n c.ref) ≡ cite c.ref out =
      cited-replicate_some c.n c.ref out p in
    record {
      cites =
          k.cites
          ∙ sym (
              ap (cited out) t
              ∙ cited-append (replicate c.n c.ref) later out
              ∙ ap (λ o. cited o later) first);
      keeps = k.keeps ∙ sym d;
      filled = k.filled;
    }

take-nil : (n : ℕ) → take {A = FrameRef} n [] ≡ []
take-nil zero = refl
take-nil (suc n) = refl

take_loop-Taken :
    (n : ℕ) (cs : List Contribution) (out : List FrameRef)
    → Filled cs
    → Taken n cs out (take_loop n cs out)
unfolding take_loop
take_loop-Taken n [] out f = record {
  cites = ap (cited out) (sym (take-nil n));
  keeps = sym (drop-nil n);
  filled = tt;
}
take_loop-Taken zero (c ∷ cs) out f = record { cites = refl; keeps = refl; filled = f }
take_loop-Taken (suc n) (c ∷ cs) out f =
    let some_left : (suc n == 0) ≡ false = ground arith in
    elim (Bool-cases (ltb (suc n) c.n)) [
      | inl y ↦ rw (some_left, y) (split_entry n c cs out (ltb→lt (suc n) c.n y) f.1)
      | inr u ↦
          rw (some_left, u)
            (whole_entry n c cs out (ltb-false→le (suc n) c.n u) f.0
              (take_loop-Taken (suc n - c.n) cs (cite c.ref out) f.1))
    ]

cite_grows : (r : FrameRef) (out : List FrameRef) → length out ≤ length (cite r out)
unfolding cite
cite_grows r out = ground (arith, length-append out (r ∷ []))

cited_grows : (out rs : List FrameRef) → length out ≤ length (cited out rs)
cited_grows out [] = omega arith
cited_grows out (r ∷ rs) = omega (arith, cite_grows r out, cited_grows (cite r out) rs)

cite_first : (r : FrameRef) → cite r [] ≡ r ∷ []
unfolding cite is_seen
cite_first r = refl

cited_some :
    (n : ℕ) (rs : List FrameRef) → 0 < n → n ≤ length rs → 0 < length (cited [] (take n rs))
cited_some zero rs h k = omega arith
cited_some (suc n) [] h k = omega arith
cited_some (suc n) (r ∷ rs) h k =
    omega (arith, cited_grows (cite r []) (take n rs), ap length (cite_first r))

or_uncited_some : (out : List FrameRef) → 0 < length out → or_uncited out ≡ out
unfolding or_uncited
or_uncited_some [] h = ground arith
or_uncited_some (r ∷ out) h = refl

-- The frames that `take` cites, as the fold of `cite` over the bytes' frames.
pub take_frames-cited :
    (n : ℕ) (ledger : List Contribution)
    → Filled ledger
    → 0 < n
    → n ≤ length (owners ledger)
    → ((take_frames n ledger).0 ≡ cited [] (take n (owners ledger)))
      × (owners (take_frames n ledger).1 ≡ drop n (owners ledger))
      × Filled (take_frames n ledger).1
unfolding take_frames
take_frames-cited n ledger f p h =
    let k = take_loop-Taken n ledger [] f in
    let some_cited : 0 < length (take_loop n ledger []).0 =
      omega (arith, ap length k.cites, cited_some n (owners ledger) p h) in
    (or_uncited_some _ some_cited ∙ k.cites, k.keeps, k.filled)
