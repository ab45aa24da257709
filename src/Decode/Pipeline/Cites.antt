-- ===== src/Decode/Pipeline/Cites.antt =====
-- Which frames a record of sc-capture/internal/decode/pipeline.go cites, over a whole segment.
use star_konflict.Base.{
  ℕ, ◌+◌, ◌-◌, ◌≤◌, ◌<◌, false, List, [], ◌∷◌, ◌++◌, ◌≡◌, refl, sym, ap, ◌∙◌, Bytes, length, All,
  take, drop, drop-add, replicate, arith, length-append, length-drop, append_assoc, append-nil,
  length-replicate,
}
use mathlib.Core.Path.{subst}
use star_konflict.Flow.{Connection, Direction}
use star_konflict.Scproto.Checksum.{header_size}
use star_konflict.Scproto.Framing.{Message, feed, new_scanner}
use star_konflict.Scproto.Framing.Next.{pending, IsValid}
use star_konflict.Scproto.Framing.Stream.{Ending, waiting, lost, no_fuel, drain}
use star_konflict.Scproto.Framing.Stream.Laws.{wire}
use star_konflict.Scproto.Framing.Stream.Chunks.{feed-Reading}
use star_konflict.Scproto.Tables.{Tables}
use star_konflict.Decode.Record.{FrameRef, Sink, Record}
use star_konflict.Decode.Stream.{StreamState, Contribution, take_frames, take_in, new_stream}
use star_konflict.Decode.Stream.Ledger.{owners, cited, Filled, take_frames-cited}
use star_konflict.Decode.Stream.Cited.{EachOnce, cited-EachOnce}
use star_konflict.Decode.Interpret.{interpret}
use star_konflict.Decode.Pipeline.{Arriving, note_desync, decode_loop}
use star_konflict.Decode.Pipeline.Loop.{interpret_all, noted, decode_loop-drain}
use star_konflict.Decode.Pipeline.Counts.{interpret-Emits}

-- The list that `take` cites for each message, for the frames of the bytes from its first one on.
abbrev shares : List FrameRef → List Message → List (List FrameRef)
shares os [] = []
shares os (m ∷ ms) = cited [] (take (length m.raw) os) ∷ shares (drop (length m.raw) os) ms

-- Each list has the frames of the bytes of one message, once each; `os` are the frames of all bytes
-- from the first message on.
abbrev pub Shares : List FrameRef → List Message → List (List FrameRef) → Type 0
Shares os [] [] = Unit
Shares os [] (c ∷ cs) = ⊥
Shares os (m ∷ ms) [] = ⊥
Shares os (m ∷ ms) (c ∷ cs) =
    EachOnce (take (length m.raw) os) c × Shares (drop (length m.raw) os) ms cs

shares-Shares : (os : List FrameRef) (ms : List Message) → Shares os ms (shares os ms)
shares-Shares os [] = tt
shares-Shares os (m ∷ ms) = (cited-EachOnce _, shares-Shares (drop (length m.raw) os) ms)

abbrev pub citations : List Record → List (List FrameRef)
citations [] = []
citations (r ∷ rs) = r.frames ∷ citations rs

citations-append : (rs qs : List Record) → citations (rs ++ qs) ≡ citations rs ++ citations qs
citations-append [] qs = refl
citations-append (r ∷ rs) qs = ap (λ t. r.frames ∷ t) (citations-append rs qs)

-- The ledger names a frame for each byte that the scanner holds.
pub record Accounted (s : StreamState) : Type 0 where
  pub valid : IsValid s.scanner
  pub owned : length (owners s.ledger) ≡ length (pending s.scanner)
  pub filled : Filled s.ledger

pub new_stream-Accounted : Accounted new_stream
unfolding new_stream new_scanner
new_stream-Accounted = record { valid = omega arith; owned = refl; filled = tt }

owners-append :
    (cs : List Contribution) (c : Contribution)
    → owners (cs ++ c ∷ []) ≡ owners cs ++ replicate c.n c.ref
owners-append [] c = append-nil _
owners-append (d ∷ cs) c =
    ap (λ t. replicate d.n d.ref ++ t) (owners-append cs c)
    ∙ sym (append_assoc (replicate d.n d.ref) (owners cs) _)

Filled-append :
    (cs : List Contribution) (c : Contribution) → Filled cs → 0 < c.n → Filled (cs ++ c ∷ [])
Filled-append [] c f h = (h, tt)
Filled-append (d ∷ cs) c f h = (f.0, Filled-append cs c f.1 h)

module _ (names : Tables) (conn : Connection) (dir : Direction) (at : Arriving) where
  interpret_all-cites :
      (ms : List Message) (p : Sink) (ledger : List Contribution)
      → Filled ledger
      → All (λ m. header_size ≤ length m.raw) ms
      → length (wire ms) ≤ length (owners ledger)
      → let r = interpret_all names conn dir at p ledger ms in
        (citations r.0.emitted ≡ citations p.emitted ++ shares (owners ledger) ms)
        × (owners r.1 ≡ drop (length (wire ms)) (owners ledger))
        × Filled r.1
  interpret_all-cites [] p ledger f h le = (sym (append-nil (citations p.emitted)), refl, f)
  interpret_all-cites (m ∷ ms) p ledger f h le =
      let n = length m.raw in
      let k =
        take_frames-cited n ledger f (omega (arith, h.0))
          (omega (arith, le, length-append m.raw (wire ms))) in
      let (frames, rest) = take_frames n ledger in
      let q = interpret names p conn dir m at.wall at.mono frames in
      let left : length (owners rest) ≡ length (owners ledger) - n =
        ap length k.1 ∙ length-drop n (owners ledger) in
      let ih =
        interpret_all-cites ms q rest k.2 h.1
          (omega (arith, le, left, length-append m.raw (wire ms))) in
      let e = interpret-Emits names p conn dir m at.wall at.mono frames in
      let first : citations q.emitted ≡ citations p.emitted ++ (frames ∷ []) =
        ap citations e.emitted ∙ citations-append p.emitted _ in
      let old = citations p.emitted in
      let later = shares (owners rest) ms in
      (
        ih.0
            ∙ ap (λ c. c ++ later) first
            ∙ append_assoc old (frames ∷ []) later
            ∙ ap (λ t. old ++ t ∷ later) k.0
            ∙ ap (λ os. old ++ cited [] (take n (owners ledger)) ∷ shares os ms) k.1,
        ih.1
            ∙ ap (drop (length (wire ms))) k.1
            ∙ sym (drop-add n (length (wire ms)) (owners ledger))
            ∙ ap (λ j. drop j (owners ledger)) (sym (length-append m.raw (wire ms))),
        ih.2,
      )

  noted-citations : (e : Ending) (p : Sink) → (noted names conn dir at e p).emitted ≡ p.emitted
  unfolding note_desync
  noted-citations lost p = refl
  noted-citations waiting p = refl
  noted-citations no_fuel p = refl

  -- The ledger once the segment is taken in.
  abbrev pub ledger_with : StreamState → Bytes → List Contribution
  ledger_with s payload = s.ledger ++ record { ref = at.ref; n = length payload } ∷ []

  ledger_with_lem :
      (s : StreamState) (payload : Bytes)
      → Accounted s
      → 0 < length payload
      → Filled (ledger_with s payload)
        × (length (owners (ledger_with s payload)) ≡ length (pending s.scanner) + length payload)
  ledger_with_lem s payload a h = (
    Filled-append s.ledger _ a.filled h,
    omega (
      arith,
      a.owned,
      ap length (owners-append s.ledger (record { ref = at.ref; n = length payload })),
      length-append (owners s.ledger) (replicate (length payload) at.ref),
      length-replicate (length payload) at.ref,
    ),
  )

  decode_loop-shares :
      (p : Sink) (s : StreamState) (payload : Bytes) (seq : ℕ)
      → Accounted s
      → s.scanner.desync ≡ false
      → 0 < length payload
      → let l = decode_loop names conn dir at p (take_in s at.ref payload seq) in
        (citations l.sink.emitted
          ≡ citations p.emitted
            ++ shares (owners (ledger_with s payload)) (drain (feed s.scanner payload)).messages)
        × Accounted l.stream
  unfolding take_in
  decode_loop-shares p s payload seq a running h =
      let (filled, owned) = ledger_with_lem s payload a h in
      let r = feed-Reading s.scanner payload a.valid running in
      let d = drain (feed s.scanner payload) in
      let total : length (wire d.messages) + length (pending d.scanner)
          ≡ length (pending s.scanner) + length payload =
        omega (
          arith,
          ap length r.bytes,
          length-append (wire d.messages) (pending d.scanner),
          length-append (pending s.scanner) payload,
        ) in
      let all =
        interpret_all-cites d.messages p (ledger_with s payload) filled r.headers
          (omega (arith, owned, total)) in
      subst
        (λ l.
          (citations l.sink.emitted
            ≡ citations p.emitted ++ shares (owners (ledger_with s payload)) d.messages)
          × Accounted l.stream)
        (sym (decode_loop-drain names conn dir at p (take_in s at.ref payload seq)))
        (
          ap citations (noted-citations d.ending _) ∙ all.0,
          record {
            valid = r.valid;
            owned = omega (
              arith,
              ap length all.1,
              length-drop (length (wire d.messages)) (owners (ledger_with s payload)),
              owned,
              total,
            );
            filled = all.2;
          },
        )

  -- In a running stream whose ledger names a frame for each byte that the scanner holds, a segment
  -- of one byte at least is taken in and the loop runs. Then each message found is cited, in order,
  -- with the frames that carried its bytes, each once, and no other frame; and the ledger
  -- that is left names a frame for each byte that the scanner still holds.
  pub decode_loop_cites :
      (p : Sink) (s : StreamState) (payload : Bytes) (seq : ℕ)
      → Accounted s
      → s.scanner.desync ≡ false
      → 0 < length payload
      → let l = decode_loop names conn dir at p (take_in s at.ref payload seq) in
        let found = (drain (feed s.scanner payload)).messages in
        (cs : List (List FrameRef)) × (citations l.sink.emitted ≡ citations p.emitted ++ cs)
        × Shares (owners (ledger_with s payload)) found cs
        × Accounted l.stream
  decode_loop_cites p s payload seq a running h =
      let (c, left) = decode_loop-shares p s payload seq a running h in
      (_, c, shares-Shares (owners (ledger_with s payload)) _, left)
