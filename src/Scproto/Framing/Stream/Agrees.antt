-- ===== src/Scproto/Framing/Stream/Agrees.antt =====
-- The loop around `Next` on a scanner does what the loop over its pending bytes does.
use star_konflict.Base.{
  ℕ, zero, suc, ◌+◌, ◌<◌, Bool, true, false, [], ◌∷◌, ◌++◌, ◌≡◌, ◌≢◌, refl, ap, ◌∙◌, Bytes, length,
  arith, inl, inr, length-drop, drop-add,
}
use mathlib.Core.Path.{subst, subst₂}
use star_konflict.Scproto.Framing.{Message, Scanner, Outcome, got, more, err_desync, feed, next}
use star_konflict.Scproto.Framing.Spec.{frame, frame_takes}
use star_konflict.Scproto.Framing.Next.{
  pending, IsValid, after, next-frame, next_stopped, next-IsValid, feed-pending,
}
use star_konflict.Scproto.Framing.Stream.{
  waiting, lost, Stream, with_parsed, stream, Drained, with_message, drain, drain_fuel,
}
use star_konflict.Scproto.Framing.Stream.Laws.{
  Frame-cases, stream_whole, stream_partial, stream_broken, stream_fuel,
}

-- The loop on a scanner does what the loop on its pending bytes does.
pub record Agrees (checked : Bool) (d : Drained) (t : Stream) : Type 0 where
  pub messages : d.messages ≡ t.parsed
  pub ending : d.ending ≡ t.stop
  pub bytes : pending d.scanner ≡ t.rest
  pub valid : IsValid d.scanner
  pub mode : d.scanner.checked ≡ checked
  pub stopped : d.ending ≡ lost → d.scanner.desync ≡ true
  pub running : d.ending ≢ lost → d.scanner.desync ≡ false

abbrev round : ℕ → Scanner × Outcome → Drained
round fuel (t, got m) = with_message m (drain_fuel fuel t)
round fuel (t, more) = record { scanner = t; messages = []; ending = waiting }
round fuel (t, err_desync) = record { scanner = t; messages = []; ending = lost }

on_outcome :
    (fuel : ℕ) (t : Scanner) (o : Outcome)
    → (elim o [
      | got m ↦ with_message m (drain_fuel fuel t)
      | more ↦ record { scanner = t; messages = []; ending = waiting }
      | err_desync ↦ record { scanner = t; messages = []; ending = lost }
    ])
      ≡ round fuel (t, o)
on_outcome fuel t (got m) = refl
on_outcome fuel t more = refl
on_outcome fuel t err_desync = refl

pub drain_fuel-round :
    (fuel : ℕ) (s : Scanner) {r : Scanner × Outcome}
    → next s ≡ r
    → drain_fuel (suc fuel) s ≡ round fuel r
unfolding drain_fuel
drain_fuel-round fuel s e = on_outcome fuel (next s).0 (next s).1 ∙ ap (round fuel) e

add_message :
    {checked : Bool} {d : Drained} {t : Stream} (m : Message)
    → Agrees checked d t
    → Agrees checked (with_message m d) (with_parsed m t)
add_message m a = record {
  messages = ap (λ ms. m ∷ ms) a.messages;
  ending = a.ending;
  bytes = a.bytes;
  valid = a.valid;
  mode = a.mode;
  stopped = a.stopped;
  running = a.running;
}

pub drain_fuel-Agrees :
    (n : ℕ) (s : Scanner)
    → IsValid s
    → s.desync ≡ false
    → Agrees s.checked (drain_fuel n s) (stream n s.checked (pending s))
drain_fuel-Agrees zero s v r =
    unfold drain_fuel stream in
    record {
      messages = refl;
      ending = refl;
      bytes = refl;
      valid = v;
      mode = refl;
      stopped = λ e. cc;
      running = λ _. r;
    }
drain_fuel-Agrees (suc n) s v r = elim (Frame-cases (frame s.checked (pending s))) [
  | inl (m, rest, e) ↦
      let step = next-frame s r ∙ ap (after s) e in
      let t = record s { off = s.off + length m.raw } in
      let moved : pending t ≡ rest =
        drop-add s.off (length m.raw) s.buf ∙ (frame_takes s.checked (pending s) e).2 in
      let later = drain_fuel-Agrees n t (rw step at (next-IsValid s v)) r in
      rw (drain_fuel-round n s step, stream_whole n s.checked (pending s) e)
        (add_message m (rw moved at later))
  | inr (inl e) ↦
      rw
        (
          drain_fuel-round n s (next-frame s r ∙ ap (after s) e),
          stream_partial n s.checked (pending s) e,
        )
        (record {
          messages = refl;
          ending = refl;
          bytes = refl;
          valid = v;
          mode = refl;
          stopped = λ e. cc;
          running = λ _. r;
        })
  | inr (inr e) ↦
      rw
        (
          drain_fuel-round n s (next-frame s r ∙ ap (after s) e),
          stream_broken n s.checked (pending s) e,
        )
        (record {
          messages = refl;
          ending = refl;
          bytes = refl;
          valid = v;
          mode = refl;
          stopped = λ e. refl;
          running = λ ne. absurd (ne refl);
        })
]

-- The loop after a call of `Feed`, with any number of rounds above the number of bytes.
pub fed-Agrees :
    (n : ℕ) (s : Scanner) (b : Bytes) {checked : Bool} {p : Bytes}
    → IsValid s
    → s.desync ≡ false
    → s.checked ≡ checked
    → pending s ≡ p
    → length (p ++ b) < n
    → Agrees checked (drain (feed s b)) (stream n checked (p ++ b))
unfolding drain
fed-Agrees n s b v r c e fits =
    let (joined, valid, stop, mode) = feed-pending s b v in
    let whole_input = joined ∙ ap (λ q. q ++ b) e in
    let rounds = suc (length (feed s b).buf) in
    let all = drain_fuel-Agrees rounds (feed s b) valid (stop ∙ r) in
    let enough =
      stream_fuel rounds n (feed s b).checked (pending (feed s b))
        (omega (arith, length-drop (feed s b).off (feed s b).buf))
        (omega (arith, fits, ap length whole_input)) in
    subst₂ (λ k q. Agrees k (drain (feed s b)) (stream n k q)) (mode ∙ c) whole_input
      (subst (λ t. Agrees (feed s b).checked (drain (feed s b)) t) enough all)

pub drain_stopped :
    (s : Scanner) (b : Bytes)
    → IsValid s
    → s.desync ≡ true
    → drain (feed s b) ≡ record { scanner = feed s b; messages = []; ending = lost }
unfolding drain
drain_stopped s b v stopped =
    drain_fuel-round _ (feed s b) (next_stopped (feed s b) ((feed-pending s b v).2 ∙ stopped))
