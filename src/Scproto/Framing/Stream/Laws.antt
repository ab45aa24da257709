-- ===== src/Scproto/Framing/Stream/Laws.antt =====
-- The loop over a byte string: fuel, conservation of bytes, and input that arrives in two parts.
use star_konflict.Base.{
  ℕ, zero, suc, ◌≤◌, ◌<◌, Bool, List, [], ◌∷◌, ◌++◌, ◌≡◌, ◌≢◌, refl, ap, ◌∙◌, Bytes, length, All,
  arith, ◌⊎◌, inl, inr, length-append, append_assoc,
}
use star_konflict.Scproto.Checksum.{header_size}
use star_konflict.Scproto.Framing.{Message}
use star_konflict.Scproto.Framing.Spec.{
  Frame, whole, partial, broken, frame, extend, frame-append, frame_takes,
}
use star_konflict.Scproto.Framing.Stream.{
  Ending, waiting, lost, no_fuel, Stream, with_parsed, stream,
}

-- The wire bytes of a list of messages.
abbrev pub wire : List Message → Bytes
wire [] = []
wire (m ∷ ms) = m.raw ++ wire ms

pub Frame-cases :
    (f : Frame)
    → ((m : Message) × (rest : Bytes) × (f ≡ whole m rest)) ⊎ ((f ≡ partial) ⊎ (f ≡ broken))
Frame-cases (whole m rest) = inl (m, rest, refl)
Frame-cases partial = inr (inl refl)
Frame-cases broken = inr (inr refl)

frame_shorter :
    (checked : Bool) (p : Bytes) {m : Message} {rest : Bytes}
    → frame checked p ≡ whole m rest
    → length rest < length p
frame_shorter checked p {m} {rest} h =
    let (joined, low, _) = frame_takes checked p h in
    omega (arith, length-append m.raw rest, ap length joined)

module _ (n : ℕ) (checked : Bool) (p : Bytes) where
  pub stream_whole :
      {m : Message} {rest : Bytes}
      → frame checked p ≡ whole m rest
      → stream (suc n) checked p ≡ with_parsed m (stream n checked rest)
  unfolding stream
  stream_whole e = rw (e, stream)

  pub stream_partial :
      frame checked p ≡ partial
      → stream (suc n) checked p ≡ record { parsed = []; rest = p; stop = waiting }
  unfolding stream
  stream_partial e = rw (e, stream)

  pub stream_broken :
      frame checked p ≡ broken
      → stream (suc n) checked p ≡ record { parsed = []; rest = p; stop = lost }
  unfolding stream
  stream_broken e = rw (e, stream)

-- With more rounds than bytes the loop ends by itself, so the number of rounds is immaterial.
pub stream_fuel :
    (n k : ℕ) (checked : Bool) (p : Bytes)
    → length p < n
    → length p < k
    → stream n checked p ≡ stream k checked p
stream_fuel zero k checked p h j = absurd (omega arith)
stream_fuel (suc n) zero checked p h j = absurd (omega arith)
stream_fuel (suc n) (suc k) checked p h j = elim (Frame-cases (frame checked p)) [
  | inl (m, rest, e) ↦
      let shorter = frame_shorter checked p e in
      rw (stream_whole n checked p e, stream_whole k checked p e)
        (ap (with_parsed m) (stream_fuel n k checked rest (omega arith) (omega arith)))
  | inr (inl e) ↦ rw (stream_partial n checked p e, stream_partial k checked p e)
  | inr (inr e) ↦ rw (stream_broken n checked p e, stream_broken k checked p e)
]

pub stream_ends :
    (n : ℕ) (checked : Bool) (p : Bytes) → length p < n → (stream n checked p).stop ≢ no_fuel
stream_ends zero checked p h = absurd (omega arith)
stream_ends (suc n) checked p h = elim (Frame-cases (frame checked p)) [
  | inl (m, rest, e) ↦
      let shorter = frame_shorter checked p e in
      rw (stream_whole n checked p e) (stream_ends n checked rest (omega arith))
  | inr (inl e) ↦ rw (stream_partial n checked p e) (λ x. cc)
  | inr (inr e) ↦ rw (stream_broken n checked p e) (λ x. cc)
]

-- No byte is lost, doubled or moved.
pub stream_conserves :
    (n : ℕ) (checked : Bool) (p : Bytes)
    → wire (stream n checked p).parsed ++ (stream n checked p).rest ≡ p
stream_conserves zero checked p = unfold stream in refl
stream_conserves (suc n) checked p = elim (Frame-cases (frame checked p)) [
  | inl (m, rest, e) ↦ rw (stream_whole n checked p e) (
      append_assoc m.raw _ _
      ∙ ap (λ q. m.raw ++ q) (stream_conserves n checked rest)
      ∙ (frame_takes checked p e).0)
  | inr (inl e) ↦ rw (stream_partial n checked p e)
  | inr (inr e) ↦ rw (stream_broken n checked p e)
]

-- The loop over `p ++ b` when the one over `p` has ended.
abbrev pub resumed : ℕ → Bool → Stream → Bytes → Ending → Stream
resumed n checked first b lost = record first { rest = first.rest ++ b; stop = lost }
resumed n checked first b _ =
    let second = stream n checked (first.rest ++ b) in
    record second { parsed = first.parsed ++ second.parsed }

resumed_whole :
    (n : ℕ) (checked : Bool) (m : Message) (first : Stream) (b : Bytes) (e : Ending)
    → with_parsed m (resumed n checked first b e) ≡ resumed n checked (with_parsed m first) b e
resumed_whole n checked m first b lost = refl
resumed_whole n checked m first b _ = refl

resumed_fuel :
    (n k : ℕ) (checked : Bool) (first : Stream) (b : Bytes) (e : Ending)
    → stream n checked (first.rest ++ b) ≡ stream k checked (first.rest ++ b)
    → resumed n checked first b e ≡ resumed k checked first b e
resumed_fuel n k checked first b lost h = refl
resumed_fuel n k checked first b _ h =
    ap (λ (t : Stream). record t { parsed = first.parsed ++ t.parsed }) h

pub length-stream_rest :
    (n : ℕ) (checked : Bool) (p : Bytes) → length (stream n checked p).rest ≤ length p
length-stream_rest n checked p = omega (
  arith,
  length-append (wire (stream n checked p).parsed) (stream n checked p).rest,
  ap length (stream_conserves n checked p),
)

pub stream-append :
    (n : ℕ) (checked : Bool) (p b : Bytes)
    → length (p ++ b) < n
    → stream n checked (p ++ b) ≡ resumed n checked (stream n checked p) b (stream n checked p).stop
stream-append zero checked p b h = absurd (omega arith)
stream-append (suc n) checked p b h = elim (Frame-cases (frame checked p)) [
  | inl (m, rest, e) ↦
      let joined = frame-append checked p b (λ x. cc (e, x)) ∙ ap (λ f. extend f b) e in
      let shorter = frame_shorter checked p e in
      let fits : length (rest ++ b) < n =
        omega (arith, h, length-append p b, length-append rest b) in
      let small = length-stream_rest n checked rest in
      let tail = (stream n checked rest).rest in
      let bound : length (tail ++ b) < n =
        omega (arith, fits, small, length-append tail b, length-append rest b) in
      rw (stream_whole n checked (p ++ b) joined, stream_whole n checked p e)
        (ap (with_parsed m) (
            stream-append n checked rest b fits
            ∙ resumed_fuel n (suc n) checked (stream n checked rest) b _
                (stream_fuel n (suc n) checked (tail ++ b) bound (omega arith)))
          ∙ resumed_whole (suc n) checked m (stream n checked rest) b _)
  | inr (inl e) ↦ rw (stream_partial n checked p e)
  | inr (inr e) ↦
      let joined = frame-append checked p b (λ x. cc (e, x)) ∙ ap (λ f. extend f b) e in
      rw (stream_broken n checked (p ++ b) joined, stream_broken n checked p e)
]

-- Each message has a header's bytes at least.
pub stream_raw :
    (n : ℕ) (checked : Bool) (p : Bytes)
    → All (λ m. header_size ≤ length m.raw) (stream n checked p).parsed
stream_raw zero checked p = unfold stream in tt
stream_raw (suc n) checked p = elim (Frame-cases (frame checked p)) [
  | inl (m, rest, e) ↦
      rw (stream_whole n checked p e) ((frame_takes checked p e).1, stream_raw n checked rest)
  | inr (inl e) ↦ rw (stream_partial n checked p e) tt
  | inr (inr e) ↦ rw (stream_broken n checked p e) tt
]
