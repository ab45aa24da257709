-- ===== src/Scproto/Framing/Stream/Chunks.antt =====
-- The loop around `Next` on a scanner, however the stream is cut into calls of `Feed`.
use star_konflict.Base.{
  ℕ, suc, ◌≤◌, ◌<◌, false, List, ◌++◌, ◌≡◌, ◌≢◌, refl, sym, ap, ◌∙◌, Bytes, length, All, arith, inl,
  inr, length-append, append_assoc, append-nil, Bool-cases,
}
use mathlib.Core.Path.{subst}
use star_konflict.Scproto.Checksum.{header_size}
use star_konflict.Scproto.Framing.{Message, Scanner, feed}
use star_konflict.Scproto.Framing.Next.{pending, IsValid, feed-pending}
use star_konflict.Scproto.Framing.Stream.{
  Ending, waiting, lost, no_fuel, Stream, stream, Drained, drain,
}
use star_konflict.Scproto.Framing.Stream.Laws.{
  wire, stream_ends, stream_conserves, stream_raw, resumed, length-stream_rest, stream-append,
}
use star_konflict.Scproto.Framing.Stream.Agrees.{Agrees, fed-Agrees, drain_stopped}

-- On a valid scanner, the loop around `Next` behind a call of `Feed` ends because of the input
-- and not for lack of rounds.
pub drain_ends : (s : Scanner) (b : Bytes) → IsValid s → (drain (feed s b)).ending ≢ no_fuel
drain_ends s b v = elim (Bool-cases s.desync) [
  | inl stopped ↦ rw (drain_stopped s b v stopped) (λ e. cc)
  | inr running ↦
      let n = suc (length (pending s ++ b)) in
      let a = fed-Agrees n s b v running refl refl (omega arith) in
      λ e. stream_ends n s.checked (pending s ++ b) (omega arith) (sym a.ending ∙ e)
]

-- On a valid scanner that is not stopped, the wire bytes of the parsed messages followed by the
-- bytes still held are what was held before followed by what was fed.
pub drain_conserves :
    (s : Scanner) (b : Bytes)
    → IsValid s
    → s.desync ≡ false
    → wire (drain (feed s b)).messages ++ pending (drain (feed s b)).scanner ≡ pending s ++ b
drain_conserves s b v running =
    let n = suc (length (pending s ++ b)) in
    let a = fed-Agrees n s b v running refl refl (omega arith) in
    rw (a.messages, a.bytes) (stream_conserves n s.checked (pending s ++ b))

-- Cutting the input in two changes neither the messages, nor how the loop ends, nor what is held.
abbrev pub SameStream : Drained → Drained → Drained → Type 0
SameStream one first second =
    (one.messages ≡ first.messages ++ second.messages)
    × (one.ending ≡ second.ending)
    × (pending one.scanner ≡ pending second.scanner)

module _ (n : ℕ) (s : Scanner) (a b : Bytes) (v : IsValid s) (r : s.desync ≡ false)
    (fits : length ((pending s ++ a) ++ b) < n) where
  one : Drained
  one = drain (feed s (a ++ b))

  first : Drained
  first = drain (feed s a)

  second : Drained
  second = drain (feed (drain (feed s a)).scanner b)

  first-Agrees : Agrees s.checked first (stream n s.checked (pending s ++ a))
  unfolding first
  first-Agrees =
      fed-Agrees n s a v r refl refl (omega (arith, fits, length-append (pending s ++ a) b))

  one-Agrees :
      {e : Ending}
      → (stream n s.checked (pending s ++ a)).stop ≡ e
      → Agrees s.checked one (resumed n s.checked (stream n s.checked (pending s ++ a)) b e)
  unfolding one
  one-Agrees e =
      let whole_input = sym (append_assoc (pending s) a b) in
      let all =
        fed-Agrees n s (a ++ b) v r refl refl (omega (arith, fits, ap length whole_input)) in
      subst (λ t. Agrees s.checked (drain (feed s (a ++ b))) t)
        (ap (stream n s.checked) whole_input
          ∙ stream-append n s.checked (pending s ++ a) b fits
          ∙ ap (resumed n s.checked (stream n s.checked (pending s ++ a)) b) e)
        all

  second-Agrees :
      first.ending ≢ lost
      → Agrees s.checked second
          (stream n s.checked ((stream n s.checked (pending s ++ a)).rest ++ b))
  unfolding first second
  second-Agrees ne =
      let f = first-Agrees in
      let cut = stream n s.checked (pending s ++ a) in
      let small = length-stream_rest n s.checked (pending s ++ a) in
      let fit : length (cut.rest ++ b) < n =
        omega (arith, fits, small, length-append cut.rest b, length-append (pending s ++ a) b) in
      fed-Agrees n _ b f.valid (f.running ne) f.mode f.bytes fit

  -- The loop over the first part ended for want of bytes.
  went_on :
      {parsed : List Message} {rest : Bytes} {t : Stream}
      → Agrees s.checked first (record { parsed = parsed; rest = rest; stop = waiting })
      → Agrees s.checked second t
      → Agrees s.checked one (record t { parsed = parsed ++ t.parsed })
      → SameStream one first second
  went_on f g o =
      (o.messages ∙ rw (f.messages, g.messages), o.ending ∙ sym g.ending, o.bytes ∙ sym g.bytes)

  -- The loop over the first part lost the framing.
  gave_up :
      {parsed : List Message} {rest : Bytes}
      → Agrees s.checked first (record { parsed = parsed; rest = rest; stop = lost })
      → Agrees s.checked one (record { parsed = parsed; rest = rest ++ b; stop = lost })
      → SameStream one first second
  unfolding first second
  gave_up f o =
      let stopped = drain_stopped first.scanner b f.valid (f.stopped f.ending) in
      let held = (feed-pending first.scanner b f.valid).0 in
      rw stopped (
        o.messages ∙ sym f.messages ∙ sym (append-nil _),
        o.ending,
        o.bytes ∙ ap (λ q. q ++ b) (sym f.bytes) ∙ sym held,
      )

  first_stop :
      {e : Ending}
      → (stream n s.checked (pending s ++ a)).stop ≡ e
      → Agrees s.checked first (record (stream n s.checked (pending s ++ a)) { stop = e })
  first_stop e =
      let cut = stream n s.checked (pending s ++ a) in
      subst (λ k. Agrees s.checked first (record cut { stop = k })) e first-Agrees

  chunked :
      (e : Ending) → (stream n s.checked (pending s ++ a)).stop ≡ e → SameStream one first second
  chunked waiting e =
      let ne : first.ending ≢ lost = λ x. cc (first-Agrees.ending, e, x) in
      went_on (first_stop e) (second-Agrees ne) (one-Agrees e)
  chunked lost e = gave_up (first_stop e) (one-Agrees e)
  chunked no_fuel e =
      let fit : length (pending s ++ a) < n =
        omega (arith, fits, length-append (pending s ++ a) b) in
      absurd (stream_ends n s.checked (pending s ++ a) fit e)

-- On a valid scanner that is not stopped, reading after each of two calls of `Feed` gives the
-- messages, the ending and the held bytes that one call with the joined bytes gives.
pub drain_chunks :
    (s : Scanner) (a b : Bytes)
    → IsValid s
    → s.desync ≡ false
    → SameStream
        (drain (feed s (a ++ b)))
        (drain (feed s a))
        (drain (feed (drain (feed s a)).scanner b))
unfolding one first second
drain_chunks s a b v r =
    chunked (suc (length ((pending s ++ a) ++ b))) s a b v r (omega arith) _ refl

-- What a reader of a running scanner needs of the loop behind a call of `Feed`.
pub record Reading (s : Scanner) (b : Bytes) : Type 0 where
  pub valid : IsValid (drain (feed s b)).scanner
  pub headers : All (λ m. header_size ≤ length m.raw) (drain (feed s b)).messages
  pub bytes :
      wire (drain (feed s b)).messages ++ pending (drain (feed s b)).scanner ≡ pending s ++ b

pub feed-Reading : (s : Scanner) (b : Bytes) → IsValid s → s.desync ≡ false → Reading s b
feed-Reading s b v running =
    let n = suc (length (pending s ++ b)) in
    let a = fed-Agrees n s b v running refl refl (omega arith) in
    record {
      valid = a.valid;
      headers = rw a.messages (stream_raw n s.checked (pending s ++ b));
      bytes = drain_conserves s b v running;
    }
