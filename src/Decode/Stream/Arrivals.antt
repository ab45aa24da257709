-- ===== src/Decode/Stream/Arrivals.antt =====
-- Segments that arrive in order, again, overlapping and late, on the 32-bit circle of TCP sequence
-- numbers, and what the stream keeps of them.
use star_konflict.Base.{
  ℕ, ◌+◌, ◌-◌, ◌%◌, ◌≤◌, ◌<◌, Bool, true, false, [], ◌++◌, ◌≡◌, refl, sym, ap, ◌∙◌, Bytes, leb,
  ◌==◌, length, drop, arith, u32_mod, drop-length, length-append, length-drop, drop-add,
}
use mathlib.Core.Path.{subst}
use star_konflict.Scproto.Framing.{Scanner, feed, next, desynced, special_message, be_uint32}
use star_konflict.Scproto.Framing.Spec.{whole, frame, frame_header}
use star_konflict.Scproto.Framing.Next.{pending, IsValid, after, feed-pending, next-frame}
use star_konflict.Decode.Stream.{
  StreamState, seq_less, duplicate, fits, overlap, arrival, poison, lose, mark_stream_desynced,
}

-- A started stream, and a segment of 32-bit sequence number `seq` that begins with bytes the stream has taken.
module _ (s : StreamState) (old new : Bytes) (seq : ℕ) (started : s.started ≡ true)
    (here : s.next_seq < u32_mod) (there : seq < u32_mod) (some_old : 0 < length old)
    (near : length old ≤ 2147483648) (meets : (seq + length old) % u32_mod ≡ s.next_seq) where
  not_next : (seq == s.next_seq) ≡ false
  not_next = ground arith

  behind : seq_less seq s.next_seq ≡ true
  unfolding seq_less
  behind = ground arith

  skipped : (s.next_seq + u32_mod - seq) % u32_mod ≡ length old
  skipped = omega arith

  is_overlap : arrival s seq (old ++ new) ≡ overlap s seq (old ++ new)
  unfolding arrival
  is_overlap = rw (started, not_next, behind)

  -- In a started stream, a segment that begins with bytes the stream has taken, 2^31 at most, and
  -- ends with new ones counts as its new bytes in sequence, also where the sequence numbers wrap
  -- around.
  pub overlap_fresh : 0 < length new → arrival s seq (old ++ new) ≡ fits new s.next_seq
  unfolding overlap
  overlap_fresh p =
      let longer : leb (length (old ++ new)) (length old) ≡ false =
        ground (arith, length-append old new) in
      is_overlap ∙ rw (skipped, longer) (ap (λ b. fits b s.next_seq) (drop-length old new))

  -- In a started stream, a segment that holds only bytes the stream has taken, 2^31 at most, is a
  -- duplicate, also where the sequence numbers wrap around.
  pub retransmission : new ≡ [] → arrival s seq (old ++ new) ≡ duplicate
  unfolding overlap
  retransmission e =
      let no_longer : leb (length (old ++ new)) (length old) ≡ true =
        ground (arith, length-append old new, ap length e) in
      is_overlap ∙ rw (skipped, no_longer)

poison-frame :
    (checked : Bool) → frame checked poison ≡ whole (special_message 0xdeadbeef poison) []
unfolding frame frame_header be_uint32 special_message
poison-frame checked = refl

record Drains (u : Scanner) : Type 0 where
  runs : u.desync ≡ false
  valid : IsValid u
  empty : pending u ≡ []

next-poison : (t : Scanner) → IsValid t → t.desync ≡ false → pending t ≡ poison → Drains (next t).0
unfolding special_message
next-poison t v running bytes =
    let step : (next t).0 ≡ record t { off = t.off + 12 } =
      ap (λ p. p.0)
        (next-frame t running
          ∙ ap (after t) (ap (frame t.checked) bytes ∙ poison-frame t.checked)) in
    subst Drains (sym step) (record {
      runs = running;
      valid = omega (arith, ap length bytes, length-drop t.off t.buf);
      empty = drop-add t.off 12 t.buf ∙ ap (drop 12) bytes;
    })

-- After a gap that finds no part of a message waiting, in a stream that runs, the scanner still
-- runs: the twelve bytes of `markStreamDesynced` are read as one special frame, nothing is left of
-- them, and what is fed next is framed from its own first byte.
pub lose_running :
    (s : StreamState) (b : Bytes)
    → IsValid s.scanner
    → desynced s.scanner ≡ false
    → pending s.scanner ≡ []
    → (desynced (lose s).scanner ≡ false) × (pending (feed (lose s).scanner b) ≡ b)
unfolding lose mark_stream_desynced desynced
lose_running s b v running nothing =
    let (p1, v1, d1, c1) = feed-pending s.scanner [] v in
    let (p2, v2, d2, c2) = feed-pending (feed s.scanner []) poison v1 in
    let bytes : pending (feed (feed s.scanner []) poison) ≡ poison = rw (p2, p1, nothing) in
    let k = next-poison _ v2 (d2 ∙ d1 ∙ running) bytes in
    (k.runs, (feed-pending _ b k.valid).0 ∙ ap (λ p. p ++ b) k.empty)
