-- ===== src/Decode/Stream.antt =====
-- One direction of a TCP connection, of sc-capture/internal/decode/pipeline.go: the stream's state,
-- the switch on a segment's sequence number, the ledger of frames and `markStreamDesynced`.
pub mod Ledger
pub mod Cited
pub mod Arrivals
use star_konflict.Base.{
  ℕ, zero, suc, ◌+◌, ◌-◌, ◌%◌, Bool, true, false, not, ◌&&◌, List, [], ◌∷◌, ◌++◌, Bytes, same, ltb,
  leb, ◌==◌, if◌then◌else◌, length, drop, u32_mod,
}
use star_konflict.Scproto.Framing.{Scanner, new_scanner, feed, next}
use star_konflict.Decode.Record.{FrameRef}

pub record Contribution : Type 0 where
  pub ref : FrameRef
  pub n : ℕ

pub record StreamState : Type 0 where
  pub scanner : Scanner
  pub next_seq : ℕ
  pub started : Bool
  pub ledger : List Contribution

unfoldable pub new_stream : StreamState
new_stream = record { scanner = new_scanner; next_seq = 0; started = false; ledger = [] }

-- `int32(a-b) < 0` on 32-bit numbers.
unfoldable pub seq_less : ℕ → ℕ → Bool
seq_less a b = leb 2147483648 ((a + u32_mod - b) % u32_mod)

-- What the switch of `feedTCP` makes of a segment: nothing new, a gap, or bytes to take from `seq`.
pub data Arrival : Type 0 where
  duplicate : Arrival
  gap : Arrival
  fits : Bytes → ℕ → Arrival

unfoldable pub overlap : StreamState → ℕ → Bytes → Arrival
overlap s seq payload =
    let skip = (s.next_seq + u32_mod - seq) % u32_mod in
    if leb (length payload) skip then duplicate else fits (drop skip payload) s.next_seq

unfoldable pub arrival : StreamState → ℕ → Bytes → Arrival
arrival s seq payload =
    if not s.started
    then fits payload seq
    else if seq == s.next_seq
    then fits payload seq
    else if seq_less seq s.next_seq
    then overlap s seq payload
    else gap

-- From `s.nextSeq = seq + uint32(len(payload))` up to the loop.
unfoldable pub take_in : StreamState → FrameRef → Bytes → ℕ → StreamState
take_in s ref payload seq = record {
  scanner = feed s.scanner payload;
  next_seq = (seq + length payload) % u32_mod;
  started = true;
  ledger = s.ledger ++ record { ref = ref; n = length payload } ∷ [];
}

abbrev pub poison : Bytes
poison = 0xde ∷ 0xad ∷ 0xbe ∷ 0xef ∷ 0 ∷ 0 ∷ 0 ∷ 0 ∷ 0 ∷ 0 ∷ 0 ∷ 0 ∷ []

unfoldable pub mark_stream_desynced : StreamState → StreamState
mark_stream_desynced s = record s { scanner = (next (feed s.scanner poison)).0 }

-- `s.scanner.Feed(nil)` and the call above, as the gap's branch has them.
unfoldable pub lose : StreamState → StreamState
unfolding mark_stream_desynced
lose s = mark_stream_desynced (record s { scanner = feed s.scanner [] })

unfoldable pub same_ref : FrameRef → FrameRef → Bool
same_ref a b = same a.segment b.segment && a.index == b.index

-- The map `seen` holds the entries of `out`.
unfoldable pub is_seen : FrameRef → List FrameRef → Bool
is_seen r [] = false
is_seen r (o ∷ out) = if same_ref o r then true else is_seen r out

unfoldable pub cite : FrameRef → List FrameRef → List FrameRef
cite r out = if is_seen r out then out else out ++ r ∷ []

unfoldable pub take_loop : ℕ → List Contribution → List FrameRef → List FrameRef × List Contribution
take_loop n [] out = (out, [])
take_loop n (c ∷ cs) out =
    let rest = take_loop (n - c.n) cs (cite c.ref out) in
    if n == 0
    then (out, c ∷ cs)
    else if ltb n c.n
    then (cite c.ref out, record c { n = c.n - n } ∷ cs)
    else rest

unfoldable pub or_uncited : List FrameRef → List FrameRef
or_uncited [] = record { segment = []; index = 0 } ∷ []
or_uncited (r ∷ out) = r ∷ out

-- `take`: the frames of the next n bytes, and the ledger that is left.
unfoldable pub take_frames : ℕ → List Contribution → List FrameRef × List Contribution
take_frames n ledger = let (out, rest) = take_loop n ledger [] in (or_uncited out, rest)
