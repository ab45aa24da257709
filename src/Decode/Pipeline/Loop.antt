-- ===== src/Decode/Pipeline/Loop.antt =====
-- The loop of `feedTCP` against the scanner's own loop: it interprets the messages in order, each
-- with the frames of its bytes, and then notes a lost framing.
use star_konflict.Base.{ℕ, zero, suc, List, [], ◌∷◌, ◌≡◌, ◌≢◌, refl, sym, ap, ◌∙◌, Bytes, length}
use star_konflict.Flow.{Connection, Direction}
use star_konflict.Scproto.Framing.{Message, Scanner, Outcome, got, more, err_desync, next}
use star_konflict.Scproto.Framing.Next.{IsValid}
use star_konflict.Scproto.Framing.Stream.{
  Ending, waiting, lost, no_fuel, Drained, with_message, drain_fuel, drain,
}
use star_konflict.Scproto.Framing.Stream.Chunks.{drain_ends}
use star_konflict.Scproto.Tables.{Tables}
use star_konflict.Decode.Record.{Sink}
use star_konflict.Decode.Stream.{StreamState, Contribution, take_frames, take_in}
use star_konflict.Decode.Interpret.{interpret}
use star_konflict.Decode.Pipeline.{
  Arriving, Looped, note_desync, interpret_next, decode_fuel, decode_loop,
}

module _ (names : Tables) (conn : Connection) (dir : Direction) (at : Arriving) where
  -- Messages in order, each with the frames that the ledger names for its bytes.
  abbrev pub interpret_all : Sink → List Contribution → List Message → Sink × List Contribution
  interpret_all p ledger [] = (p, ledger)
  interpret_all p ledger (m ∷ ms) =
      let (frames, rest) = take_frames (length m.raw) ledger in
      interpret_all (interpret names p conn dir m at.wall at.mono frames) rest ms

  abbrev pub noted : Ending → Sink → Sink
  noted lost p = note_desync p conn at.ref
  noted waiting p = p
  noted no_fuel p = p

  abbrev pub summary : Sink → StreamState → Drained → Looped
  summary p s d =
      let (q, ledger) = interpret_all p s.ledger d.messages in
      record {
        sink = noted d.ending q;
        stream = record s { scanner = d.scanner; ledger = ledger };
        ending = d.ending;
      }

  by_outcome :
      (n : ℕ) (p : Sink) (s : StreamState) (t : Scanner) (o : Outcome)
      → ((q : Sink) (u : StreamState)
          → decode_fuel n names conn dir at q u ≡ summary q u (drain_fuel n u.scanner))
      → (elim o [
        | got msg ↦
            let (q, u) = interpret_next names conn dir at p s t msg in
            decode_fuel n names conn dir at q u
        | more ↦ record { sink = p; stream = record s { scanner = t }; ending = waiting }
        | err_desync ↦ record {
          sink = note_desync p conn at.ref;
          stream = record s { scanner = t };
          ending = lost;
        }
      ])
        ≡ summary p s (elim o [
          | got m ↦ with_message m (drain_fuel n t)
          | more ↦ record { scanner = t; messages = []; ending = waiting }
          | err_desync ↦ record { scanner = t; messages = []; ending = lost }
        ])
  unfolding interpret_next
  by_outcome n p s t (got msg) ih = ih _ _
  by_outcome n p s t more ih = refl
  by_outcome n p s t err_desync ih = refl

  decode_fuel-drain_fuel :
      (n : ℕ) (p : Sink) (s : StreamState)
      → decode_fuel n names conn dir at p s ≡ summary p s (drain_fuel n s.scanner)
  unfolding decode_fuel drain_fuel
  decode_fuel-drain_fuel zero p s = refl
  decode_fuel-drain_fuel (suc n) p s =
      by_outcome n p s (next s.scanner).0 (next s.scanner).1 (decode_fuel-drain_fuel n)

  -- The loop of `feedTCP` does this: the scanner's own loop finds the messages; each is interpreted
  -- in order with the frames that the ledger names for its bytes; and if the framing is lost behind
  -- them, that is noted once.
  pub decode_loop-drain :
      (p : Sink) (s : StreamState)
      → decode_loop names conn dir at p s ≡ summary p s (drain s.scanner)
  unfolding decode_loop drain
  decode_loop-drain p s = decode_fuel-drain_fuel _ p s

  -- On a stream with a valid scanner, the loop that follows a segment ends because of the input
  -- and not for lack of rounds.
  pub decode_loop_ends :
      (p : Sink) (s : StreamState) (payload : Bytes) (seq : ℕ)
      → IsValid s.scanner
      → (decode_loop names conn dir at p (take_in s at.ref payload seq)).ending ≢ no_fuel
  unfolding take_in
  decode_loop_ends p s payload seq v e =
      drain_ends s.scanner payload v
        (sym (ap (λ l. l.ending) (decode_loop-drain p (take_in s at.ref payload seq))) ∙ e)
