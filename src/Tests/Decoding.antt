-- ===== src/Tests/Decoding.antt =====
-- The pipeline, on one connection.
use star_konflict.Base.Int.{pos}
use star_konflict.Base.{
  ◌%◌, true, false, List, [], ◌∷◌, ◌++◌, Bytes, Option, some, ◌≡◌, ◌≢◌, refl, arith, length, take,
  drop, u64_mod,
}
use star_konflict.Flow.{Observed, new_table, observe}
use star_konflict.Scproto.Tables.{no_tables}
use star_konflict.Scproto.Framing.{Message, new_scanner, feed, desynced}
use star_konflict.Scproto.Framing.Next.{pending}
use star_konflict.Scproto.Framing.Stream.{no_fuel, drain}
use star_konflict.Decode.Record.{FrameRef, Sink}
use star_konflict.Decode.Stream.{StreamState, Contribution, new_stream, take_in, lose, take_frames}
use star_konflict.Decode.Stream.Ledger.{owners, Filled}
use star_konflict.Decode.Stream.Cited.{EachOnce, take_frames-EachOnce}
use star_konflict.Decode.Record.{FrameRef}
use star_konflict.Decode.Stream.Arrivals.{lose_running}
use star_konflict.Decode.Interpret.{interpret}
use star_konflict.Decode.Pipeline.{Arriving, new_pipeline, decode_loop, Packet, udp, stats}
use star_konflict.Decode.Pipeline.Loop.{summary, decode_loop-drain, decode_loop_ends}
use star_konflict.Decode.Pipeline.Counts.{Emits, result_of, interpret-Emits}
use star_konflict.Decode.Pipeline.Numbered.{NumberedFrom, feed_all, feed_all_numbers}
use star_konflict.Decode.Pipeline.Cites.{
  Shares, citations, Accounted, new_stream-Accounted, ledger_with, decode_loop_cites,
}

abbrev one_byte : Bytes
one_byte = 0 ∷ 0 ∷ 0 ∷ 1 ∷ 0 ∷ 1 ∷ 0 ∷ 0 ∷ 0 ∷ 0x0d ∷ 0x93 ∷ 0x24 ∷ 0x01 ∷ []

abbrev frame_7 : FrameRef
frame_7 = record { segment = b's' ∷ []; index = 7 }

abbrev frame_8 : FrameRef
frame_8 = record { segment = b's' ∷ []; index = 8 }

abbrev at_7 : Arriving
at_7 = record { ref = frame_7; wall = 100; mono = pos 10 }

abbrev seen : Observed
seen = observe new_table (b'1' ∷ []) 50000 (b'2' ∷ []) 3802 false 5

abbrev sink : Sink
sink = (new_pipeline seen.table).sink

decode_loop_cites_example :
    let l =
      decode_loop no_tables seen.conn seen.dir at_7 sink (take_in new_stream frame_7 one_byte 9) in
    (cs : List (List FrameRef)) × (citations l.sink.emitted ≡ citations sink.emitted ++ cs)
    × Shares
        (owners (ledger_with no_tables seen.conn seen.dir at_7 new_stream one_byte))
        (drain (feed new_stream.scanner one_byte)).messages
        cs
    × Accounted l.stream
unfolding new_stream new_scanner
decode_loop_cites_example =
    decode_loop_cites no_tables seen.conn seen.dir at_7 sink new_stream one_byte 9
      new_stream-Accounted refl (omega arith)

decode_loop-drain_example :
    decode_loop no_tables seen.conn seen.dir at_7 sink (take_in new_stream frame_7 one_byte 9)
    ≡ summary no_tables seen.conn seen.dir at_7 sink
        (take_in new_stream frame_7 one_byte 9)
        (drain (take_in new_stream frame_7 one_byte 9).scanner)
decode_loop-drain_example =
    decode_loop-drain no_tables seen.conn seen.dir at_7 sink (take_in new_stream frame_7 one_byte 9)

decode_loop_ends_example :
    (decode_loop no_tables seen.conn seen.dir at_7 sink
      (take_in new_stream frame_7 one_byte 9)).ending
    ≢ no_fuel
unfolding new_stream new_scanner
decode_loop_ends_example =
    decode_loop_ends no_tables seen.conn seen.dir at_7 sink new_stream one_byte 9 (omega arith)

abbrev two_frames : List Contribution
two_frames = record { ref = frame_7; n = 13 } ∷ record { ref = frame_8; n = 20 } ∷ []

take_frames-EachOnce_example :
    EachOnce (take 15 (owners two_frames)) (take_frames 15 two_frames).0
    × (owners (take_frames 15 two_frames).1 ≡ drop 15 (owners two_frames))
    × Filled (take_frames 15 two_frames).1
take_frames-EachOnce_example =
    take_frames-EachOnce 15 two_frames (omega arith, (omega arith, tt)) (omega arith) (omega arith)

-- The next byte is number 2 on the circle; the segments begin just below 2^32.
abbrev wrapped : StreamState
wrapped = record {
  scanner = record { buf = []; off = 0; desync = false; checked = true };
  next_seq = 2;
  started = true;
  ledger = [];
}

lose_running_example :
    (desynced (lose wrapped).scanner ≡ false)
    × (pending (feed (lose wrapped).scanner (5 ∷ [])) ≡ 5 ∷ [])
unfolding desynced
lose_running_example = lose_running wrapped (5 ∷ []) (omega arith) refl refl

abbrev message : Message
message = record {
  header = record {
    length = 1;
    seq = 1;
    echo_seq = 0;
    type = 13;
    checksum = 37668;
    special = false;
  };
  body = 1 ∷ [];
  raw = one_byte;
}

interpret-Emits_example :
    Emits sink
      (interpret no_tables sink seen.conn seen.dir message 100 (pos 10) (frame_7 ∷ []))
      seen.conn.conn_id
      seen.dir
      100
      (pos 10)
      (frame_7 ∷ [])
      13
      (result_of no_tables sink message 100)
interpret-Emits_example =
    interpret-Emits no_tables sink seen.conn seen.dir message 100 (pos 10) (frame_7 ∷ [])

abbrev datagram : Bytes → Option Packet
datagram payload =
    some (record { src_ip = b'1' ∷ []; dst_ip = b'2' ∷ []; transport = udp 50000 7000 payload })

feed_all_numbers_example :
    let p =
      (feed_all no_tables datagram
        (new_pipeline new_table)
        ((at_7, 1 ∷ []) ∷ (at_7, 2 ∷ []) ∷ [])).sink in
    NumberedFrom 0 p.emitted × ((stats p).records ≡ length p.emitted % u64_mod)
feed_all_numbers_example =
    feed_all_numbers no_tables datagram new_table ((at_7, 1 ∷ []) ∷ (at_7, 2 ∷ []) ∷ [])
