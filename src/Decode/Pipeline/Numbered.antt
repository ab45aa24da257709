-- ===== src/Decode/Pipeline/Numbered.antt =====
-- The numbering of the records of sc-capture/internal/decode/pipeline.go over any sequence of
-- frames.
use star_konflict.Base.Int.{ℤ}
use star_konflict.Base.{
  ℕ, ◌+◌, ◌%◌, List, [], ◌∷◌, ◌++◌, ◌≡◌, refl, sym, ap, ◌∙◌, Bytes, length, arith, Option, none,
  some, u64_mod, length-append, Bool-cases, inl, inr, u64_mod,
}
use mathlib.Core.Path.{subst}
use star_konflict.Flow.{Table, Connection, Direction}
use star_konflict.Scproto.Framing.{Message, desynced}
use star_konflict.Scproto.Framing.Stream.{Ending, waiting, lost, no_fuel, drain}
use star_konflict.Scproto.Tables.{Tables}
use star_konflict.Decode.Record.{FrameRef, Sink, Record, Result}
use star_konflict.Decode.Stream.{StreamState, Contribution, Arrival, duplicate, gap, fits, arrival}
use star_konflict.Decode.Pipeline.{
  Arriving, Pipeline, new_pipeline, note_desync, decode_loop, feed_arrival, feed_stream, feed_tcp,
  feed_udp, Transport, tcp, udp, other_transport, Packet, feed_transport, feed_packet, feed, stats,
}
use star_konflict.Decode.Pipeline.Loop.{interpret_all, noted, decode_loop-drain}
use star_konflict.Decode.Pipeline.Counts.{Keeps-refl, Emits, interpret-Emits, emit_record-Emits}

-- Records that carry consecutive numbers behind k, modulo 2^64.
abbrev pub NumberedFrom : ℕ → List Record → Type 0
NumberedFrom k [] = Unit
NumberedFrom k (r ∷ rs) = (r.seq ≡ (k + 1) % u64_mod) × NumberedFrom (k + 1) rs

pub record Counted (p : Sink) : Type 0 where
  pub numbered : NumberedFrom 0 p.emitted
  pub seq : p.seq ≡ length p.emitted % u64_mod
  pub count : p.record_cnt ≡ length p.emitted % u64_mod

NumberedFrom-append :
    (k : ℕ) (rs : List Record) (r : Record)
    → NumberedFrom k rs
    → r.seq ≡ (k + length rs + 1) % u64_mod
    → NumberedFrom k (rs ++ r ∷ [])
NumberedFrom-append k [] r h e = (rw e (ap (λ n. (n + 1) % u64_mod) (omega arith)), tt)
NumberedFrom-append k (x ∷ rs) r h e =
    (h.0, NumberedFrom-append (k + 1) rs r h.1 (e ∙ ap (λ n. n % u64_mod) (omega arith)))

Emits-Counted :
    {p q : Sink} {conn : Bytes} {dir : Direction} {wall : ℕ} {mono : ℤ} {frames : List FrameRef}
    {n : ℕ} {res : Result}
    → Counted p
    → Emits p q conn dir wall mono frames n res
    → Counted q
Emits-Counted {p} {q} c e =
    let longer : length q.emitted ≡ length p.emitted + 1 =
      ap length e.emitted ∙ length-append p.emitted _ in
    record {
      numbered =
          subst (NumberedFrom 0) (sym e.emitted)
            (NumberedFrom-append 0 p.emitted _ c.numbered (omega (arith, c.seq)));
      seq = omega (arith, e.seq, c.seq, longer);
      count = omega (arith, e.count, c.count, longer);
    }

note_desync-Counted :
    (p : Sink) (conn : Connection) (ref : FrameRef) → Counted p → Counted (note_desync p conn ref)
unfolding note_desync
note_desync-Counted p conn ref c = record { numbered = c.numbered; seq = c.seq; count = c.count }

module _ (names : Tables) (conn : Connection) (dir : Direction) (at : Arriving) where
  interpret_all-Counted :
      (ms : List Message) (p : Sink) (ledger : List Contribution)
      → Counted p
      → Counted (interpret_all names conn dir at p ledger ms).0
  interpret_all-Counted [] p ledger c = c
  interpret_all-Counted (m ∷ ms) p ledger c =
      interpret_all-Counted ms _ _
        (Emits-Counted c (interpret-Emits names p conn dir m at.wall at.mono _))

  noted-Counted : (e : Ending) (p : Sink) → Counted p → Counted (noted names conn dir at e p)
  noted-Counted lost p c = note_desync-Counted p conn at.ref c
  noted-Counted waiting p c = c
  noted-Counted no_fuel p c = c

  decode_loop-Counted :
      (p : Sink) (s : StreamState) → Counted p → Counted (decode_loop names conn dir at p s).sink
  decode_loop-Counted p s c =
      subst (λ l. Counted l.sink) (sym (decode_loop-drain names conn dir at p s))
        (noted-Counted (drain s.scanner).ending _
          (interpret_all-Counted (drain s.scanner).messages p s.ledger c))

  feed_arrival-Counted :
      (p : Sink) (s : StreamState) (a : Arrival)
      → Counted p
      → Counted (feed_arrival names conn dir at p s a).0
  unfolding feed_arrival
  feed_arrival-Counted p s duplicate c = c
  feed_arrival-Counted p s gap c = note_desync-Counted p conn at.ref c
  feed_arrival-Counted p s (fits payload seq) c = decode_loop-Counted p _ c

  feed_stream-Counted :
      (p : Sink) (s : StreamState) (seq : ℕ) (payload : Bytes)
      → Counted p
      → Counted (feed_stream names conn dir at p s seq payload).0
  unfolding feed_stream
  feed_stream-Counted p s seq payload c = elim (Bool-cases (desynced s.scanner)) [
    | inl y ↦ rw y c
    | inr u ↦ rw u (feed_arrival-Counted p s (arrival s seq payload) c)
  ]

  feed_tcp-Counted :
      (p : Pipeline) (seq : ℕ) (payload : Bytes)
      → Counted p.sink
      → Counted (feed_tcp names conn dir at p seq payload).sink
  unfolding feed_tcp
  feed_tcp-Counted p seq [] c = c
  feed_tcp-Counted p seq (b ∷ bs) c = feed_stream-Counted p.sink _ seq (b ∷ bs) c

  feed_udp-Counted :
      (p : Sink) (payload : Bytes) → Counted p → Counted (feed_udp conn dir at p payload)
  unfolding feed_udp
  feed_udp-Counted p [] c = c
  feed_udp-Counted p (b ∷ bs) c =
      Emits-Counted c (emit_record-Emits (Keeps-refl p) conn dir at.wall at.mono (at.ref ∷ []) _ _)

retabled : (p : Sink) (t : Table) → Counted p → Counted (record p { table = t })
retabled p t c = record { numbered = c.numbered; seq = c.seq; count = c.count }

feed_transport-Counted :
    (names : Tables) (at : Arriving) (p : Pipeline) (src dst : Bytes) (t : Transport)
    → Counted p.sink
    → Counted (feed_transport names at p src dst t).sink
unfolding feed_transport
feed_transport-Counted names at p src dst (tcp sp dp seq payload) c =
    feed_tcp-Counted names _ _ at _ seq payload (retabled p.sink _ c)
feed_transport-Counted names at p src dst (udp sp dp payload) c =
    feed_udp-Counted names _ _ at _ payload (retabled p.sink _ c)
feed_transport-Counted names at p src dst other_transport c = c

new_pipeline-Counted : (t : Table) → Counted (new_pipeline t).sink
unfolding new_pipeline
new_pipeline-Counted t = record { numbered = tt; seq = refl; count = refl }

feed_packet-Counted :
    (names : Tables) (at : Arriving) (p : Pipeline) (k : Option Packet)
    → Counted p.sink
    → Counted (feed_packet names at p k).sink
unfolding feed_packet
feed_packet-Counted names at p none c = c
feed_packet-Counted names at p (some k) c =
    feed_transport-Counted names at p k.src_ip k.dst_ip k.transport c

module _ (names : Tables) (packet : Bytes → Option Packet) where
  feed-Counted :
      (at : Arriving) (p : Pipeline) (frame : Bytes)
      → Counted p.sink
      → Counted (feed names packet at p frame).sink
  unfolding feed
  feed-Counted at p frame c = feed_packet-Counted names at p (packet frame) c

  -- `Feed` on each frame in turn.
  abbrev pub feed_all : Pipeline → List (Arriving × Bytes) → Pipeline
  feed_all p [] = p
  feed_all p ((at, frame) ∷ fs) = feed_all (feed names packet at p frame) fs

  feed_all-Counted :
      (fs : List (Arriving × Bytes)) (p : Pipeline) → Counted p.sink → Counted (feed_all p fs).sink
  feed_all-Counted [] p c = c
  feed_all-Counted ((at, frame) ∷ fs) p c = feed_all-Counted fs _ (feed-Counted at p frame c)

  -- Whatever frames a new pipeline is fed, and whatever the packet library makes of them, the
  -- records that it has handed out are numbered 1, 2, 3 and so on (modulo 2^64), and `Stats`
  -- reports their number (modulo 2^64).
  pub feed_all_numbers :
      (t : Table) (fs : List (Arriving × Bytes))
      → let p = (feed_all (new_pipeline t) fs).sink in
        NumberedFrom 0 p.emitted × ((stats p).records ≡ length p.emitted % u64_mod)
  unfolding stats
  feed_all_numbers t fs =
      let c = feed_all-Counted fs (new_pipeline t) (new_pipeline-Counted t) in (c.numbered, c.count)
