-- ===== src/Decode/Pipeline.antt =====
-- `Feed` and what it calls, of sc-capture/internal/decode/pipeline.go. The packet library
-- (gopacket, with `net.ParseIP`) is the parameter `packet`; the name tables that package scproto
-- loads at start are the parameter `names`.
pub mod Loop
pub mod Counts
pub mod Numbered
pub mod Cites
use star_konflict.Base.Int.{ℤ}
use star_konflict.Base.{
  ℕ, zero, suc, ◌+◌, Bool, true, false, not, ◌&&◌, List, [], ◌∷◌, ◌++◌, Bytes, text, same, ◌==◌,
  if◌then◌else◌, Option, none, some, length, ◌-◌,
}
use star_konflict.Base.Map.{Eq, lookup, insert, nat_eq, bytes_eq}
use star_konflict.Flow.{
  Table, Connection, Direction, client_to_server, server_to_client, Service, dedicated, Observed,
  observe, mark_desync,
}
use star_konflict.Scproto.Framing.{Message, Scanner, Outcome, got, more, err_desync, next, desynced}
use star_konflict.Scproto.Framing.Stream.{Ending, waiting, lost, no_fuel}
use star_konflict.Scproto.Tables.{Tables, Element}
use star_konflict.Decode.Record.{
  FrameRef, Sink, Status, undecoded, Result, empty_result, Handoff, emit_record,
}
use star_konflict.Decode.Stream.{
  StreamState, new_stream, Contribution, Arrival, duplicate, gap, fits, arrival, take_in, lose,
  take_frames,
}
use star_konflict.Decode.Interpret.{interpret}
use star_konflict.Decode.Pipeline.Keys.{StreamKey, stream_key_eq}
mod Keys

-- One frame with its clock readings.
pub record Arriving : Type 0 where
  pub ref : FrameRef
  pub wall : ℕ
  pub mono : ℤ

pub record Pipeline : Type 0 where
  pub sink : Sink
  pub streams : List (StreamKey × StreamState)

unfoldable pub new_pipeline : Table → Pipeline
new_pipeline table = record {
  sink = record {
    table = table;
    seq = 0;
    observed = [];
    novel = [];
    cred_seen = false;
    desyncs = 0;
    failures = 0;
    handoffs = [];
    record_cnt = 0;
    emitted = [];
  };
  streams = [];
}

-- `p.table.MarkDesync(conn, ref.Index)` and `p.desyncs++`.
unfoldable pub note_desync : Sink → Connection → FrameRef → Sink
note_desync p conn ref = record p {
  table = mark_desync p.table conn.key ref.index;
  desyncs = p.desyncs + 1;
}

-- Where the loop of `feedTCP` ends, and why.
pub record Looped : Type 0 where
  pub sink : Sink
  pub stream : StreamState
  pub ending : Ending

-- The body of the loop at a message.
unfoldable pub interpret_next :
    Tables
    → Connection
    → Direction
    → Arriving
    → Sink
    → StreamState
    → Scanner
    → Message
    → Sink × StreamState
interpret_next names conn dir at p s t msg =
    let (frames, ledger) = take_frames (length msg.raw) s.ledger in
    (
      interpret names p conn dir msg at.wall at.mono frames,
      record s { scanner = t; ledger = ledger },
    )

unfoldable pub decode_fuel :
    ℕ → Tables → Connection → Direction → Arriving → Sink → StreamState → Looped
decode_fuel zero names conn dir at p s = record { sink = p; stream = s; ending = no_fuel }
decode_fuel (suc fuel) names conn dir at p s =
    let (t, o) = next s.scanner in
    elim o [
      | got msg ↦
          let (q, u) = interpret_next names conn dir at p s t msg in
          decode_fuel fuel names conn dir at q u
      | more ↦ record { sink = p; stream = record s { scanner = t }; ending = waiting }
      | err_desync ↦ record {
        sink = note_desync p conn at.ref;
        stream = record s { scanner = t };
        ending = lost;
      }
    ]

-- Each message takes twelve bytes at least.
unfoldable pub decode_loop :
    Tables → Connection → Direction → Arriving → Sink → StreamState → Looped
decode_loop names conn dir at p s = decode_fuel (suc (length s.scanner.buf)) names conn dir at p s

-- From the switch on, for a stream whose scanner runs.
unfoldable pub feed_arrival :
    Tables → Connection → Direction → Arriving → Sink → StreamState → Arrival → Sink × StreamState
feed_arrival names conn dir at p s duplicate = (p, s)
feed_arrival names conn dir at p s gap = (note_desync p conn at.ref, lose s)
feed_arrival names conn dir at p s (fits payload seq) =
    let d = decode_loop names conn dir at p (take_in s at.ref payload seq) in (d.sink, d.stream)

unfoldable pub feed_stream :
    Tables → Connection → Direction → Arriving → Sink → StreamState → ℕ → Bytes → Sink × StreamState
feed_stream names conn dir at p s seq payload =
    if desynced s.scanner
    then (p, s)
    else feed_arrival names conn dir at p s (arrival s seq payload)

-- `s, ok := p.streams[key]; if !ok { … }`.
unfoldable pub stream_or_new : Option StreamState → StreamState
stream_or_new none = new_stream
stream_or_new (some s) = s

unfoldable pub feed_tcp :
    Tables → Connection → Direction → Arriving → Pipeline → ℕ → Bytes → Pipeline
feed_tcp names conn dir at p seq [] = p
feed_tcp names conn dir at p seq (b ∷ bs) =
    let k : StreamKey = record { conn = conn.conn_id; dir = dir } in
    let (q, s) =
      feed_stream names conn dir at p.sink (stream_or_new (lookup k p.streams)) seq (b ∷ bs) in
    record { sink = q; streams = insert k s p.streams }

unfoldable pub datagram_reason : Service → Bytes
datagram_reason dedicated = text "in-match dedicated-server traffic; layout unknown"
datagram_reason _ = text "datagram protocol; no decoder has ever been written for this traffic"

unfoldable pub feed_udp : Connection → Direction → Arriving → Sink → Bytes → Sink
feed_udp conn dir at p [] = p
feed_udp conn dir at p (b ∷ bs) =
    emit_record p conn dir at.wall at.mono (at.ref ∷ []) (length (b ∷ bs))
      (record empty_result { status = undecoded; reason = datagram_reason conn.service })

-- What the packet library finds in a frame with two addresses: ports and, for TCP, the sequence
-- number, then the payload.
pub data Transport : Type 0 where
  tcp : ℕ → ℕ → ℕ → Bytes → Transport
  udp : ℕ → ℕ → Bytes → Transport
  other_transport : Transport

pub record Packet : Type 0 where
  pub src_ip : Bytes
  pub dst_ip : Bytes
  pub transport : Transport

unfoldable pub feed_transport : Tables → Arriving → Pipeline → Bytes → Bytes → Transport → Pipeline
feed_transport names at p src dst (tcp sp dp seq payload) =
    let o = observe p.sink.table src sp dst dp false at.wall in
    feed_tcp names o.conn o.dir at (record p { sink = record p.sink { table = o.table } }) seq
      payload
feed_transport names at p src dst (udp sp dp payload) =
    let o = observe p.sink.table src sp dst dp true at.wall in
    record p { sink = feed_udp o.conn o.dir at (record p.sink { table = o.table }) payload }
feed_transport names at p src dst other_transport = p

unfoldable pub feed_packet : Tables → Arriving → Pipeline → Option Packet → Pipeline
feed_packet names at p none = p
feed_packet names at p (some k) = feed_transport names at p k.src_ip k.dst_ip k.transport

module _ (names : Tables) (packet : Bytes → Option Packet) where
  unfoldable pub feed : Arriving → Pipeline → Bytes → Pipeline
  feed at p frame = feed_packet names at p (packet frame)

-- `len(k) > 0 && k[len(k)-1] == '!'`.
unfoldable pub is_decoded_key : Bytes → Bool
is_decoded_key [] = false
is_decoded_key (c ∷ []) = c == b'!'
is_decoded_key (_ ∷ c ∷ k) = is_decoded_key (c ∷ k)

unfoldable pub decoded_keys : List (Bytes × Bool) → ℕ
decoded_keys [] = 0
decoded_keys ((k, _) ∷ m) = if is_decoded_key k then suc (decoded_keys m) else decoded_keys m

pub record Stats : Type 0 where
  pub records : ℕ
  pub desyncs : ℕ
  pub failures : ℕ
  pub novel : List Element
  pub credentials_seen : Bool
  pub handoffs : List Handoff
  pub observed_elements : List (Bytes × Bool)
  pub distinct_observed : ℕ
  pub distinct_decoded_ok : ℕ

unfoldable pub stats : Sink → Stats
stats p = record {
  records = p.record_cnt;
  desyncs = p.desyncs;
  failures = p.failures;
  novel = p.novel;
  credentials_seen = p.cred_seen;
  handoffs = p.handoffs;
  observed_elements = p.observed;
  distinct_observed = length p.observed - decoded_keys p.observed;
  distinct_decoded_ok = decoded_keys p.observed;
}
