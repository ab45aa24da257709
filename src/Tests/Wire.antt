-- ===== src/Tests/Wire.antt =====
-- Framing, checksum, bit reader and bodies. The packets and checksums are those of
-- sc-capture/testdata/golden/framing.json.
use star_konflict.Base.{
  Bool, true, false, [], ◌∷◌, ◌++◌, Bytes, none, some, ◌≡◌, refl, arith, ltb, ltb→lt, if◌then◌else◌,
  Bool-cases, inl, inr,
}
use star_konflict.Scproto.Checksum.{
  checksum, mix, mix_tail, mix_word, mix_one, word_le, finish, hashed_header, mul32, shl32, shr32,
  put_uint16_le, put_uint32_le,
}
use star_konflict.Scproto.Framing.{Scanner, new_scanner, feed, next, got, build}
use star_konflict.Scproto.Framing.Spec.{frame}
use star_konflict.Scproto.Framing.Next.{pending, after, next-frame}
use star_konflict.Scproto.Framing.Stream.{drain}
use star_konflict.Scproto.Framing.Stream.Laws.{wire}
use star_konflict.Scproto.Framing.Stream.Chunks.{SameStream, drain_chunks, drain_conserves}
use star_konflict.Scproto.Framing.RoundTrip.{IsBuildable, built, next-build}
use star_konflict.Scproto.BitReader.{BitReader}
use star_konflict.Scproto.BitReader.Bits.{AreBytes}
use star_konflict.Base.Int.{signed32}
use star_konflict.Scproto.Bodies.Bounds.{Held, parse_assigned_shard_bounds}
use star_konflict.Scproto.Bodies.{AssignedShard, parse_dedicated_server, parse_assigned_shard}
use star_konflict.Scproto.Bodies.Laws.{
  IsAddress, parse_dedicated_server_reads, parse_assigned_shard_reads,
}

abbrev one_byte : Bytes
one_byte = 0 ∷ 0 ∷ 0 ∷ 1 ∷ 0 ∷ 1 ∷ 0 ∷ 0 ∷ 0 ∷ 0x0d ∷ 0x93 ∷ 0x24 ∷ 0x01 ∷ []

checksum_empty : checksum 0 1 0 13 [] ≡ 44900
unfolding checksum mix mix_tail mix_word mix_one word_le finish hashed_header mul32 shl32 shr32
    put_uint16_le put_uint32_le
checksum_empty = refl

checksum_one : checksum 1 1 0 13 (1 ∷ []) ≡ 37668
unfolding checksum mix mix_tail mix_word mix_one word_le finish hashed_header mul32 shl32 shr32
    put_uint16_le put_uint32_le
checksum_one = refl

checksum_two : checksum 2 2 1 14 (1 ∷ 2 ∷ []) ≡ 27859
unfolding checksum mix mix_tail mix_word mix_one word_le finish hashed_header mul32 shl32 shr32
    put_uint16_le put_uint32_le
checksum_two = refl

drain_chunks_example :
    SameStream
      (drain (feed new_scanner (one_byte ++ one_byte)))
      (drain (feed new_scanner one_byte))
      (drain (feed (drain (feed new_scanner one_byte)).scanner one_byte))
unfolding new_scanner
drain_chunks_example = drain_chunks new_scanner one_byte one_byte (omega arith) refl

drain_conserves_example :
    wire (drain (feed new_scanner one_byte)).messages
      ++ pending (drain (feed new_scanner one_byte)).scanner
    ≡ one_byte
unfolding new_scanner
drain_conserves_example = drain_conserves new_scanner one_byte (omega arith) refl

abbrev holding : Scanner
holding = record { buf = one_byte; off = 0; desync = false; checked = true }

next-frame_example : next holding ≡ after holding (frame true one_byte)
next-frame_example = next-frame holding refl

abbrev two_built : Scanner
two_built = record {
  buf = build 13 1 0 (1 ∷ []) ++ 9 ∷ [];
  off = 0;
  desync = false;
  checked = true;
}

small_body : IsBuildable 13 1 0 (1 ∷ [])
small_body = record {
  type_fits = omega arith;
  seq_fits = omega arith;
  echo_fits = omega arith;
  body_fits = omega arith;
}

next-build_example :
    ((next two_built).1 ≡ got (built 13 1 0 (1 ∷ [])))
    × (pending (next two_built).0 ≡ 9 ∷ [])
    × ((next two_built).0.desync ≡ false)
next-build_example =
    next-build 13 1 0 (1 ∷ []) (9 ∷ []) small_body two_built (omega arith) refl refl

abbrev all_small : Bytes → Bool
all_small [] = true
all_small (b ∷ bs) = if ltb b 256 then all_small bs else false

small : (bs : Bytes) → all_small bs ≡ true → AreBytes bs
small [] h = tt
small (b ∷ bs) h = elim (Bool-cases (ltb b 256)) [
  | inl y ↦ (ltb→lt b 256 y, small bs (rw y at h))
  | inr u ↦ cc (rw u at h)
]

abbrev five : BitReader
five = record { buf = 0xaf ∷ 0x30 ∷ []; bit = 0 }

abbrev hi : BitReader
hi = record { buf = 0x68 ∷ 0x69 ∷ 0x00 ∷ 0xff ∷ []; bit = 0 }

-- A handoff to 1.2 at port 7, session 5, zone 3, with a set flag and padding.
abbrev handoff_body : Bytes
handoff_body =
    b'1' ∷ b'.' ∷ b'2' ∷ 0 ∷ 0 ∷ 7 ∷ 0 ∷ 0 ∷ 0 ∷ 0 ∷ 0 ∷ 0 ∷ 0 ∷ 5 ∷ 0 ∷ 0 ∷ 0 ∷ 3 ∷ 0x80 ∷ []

abbrev handoff_address : Bytes
handoff_address = b'1' ∷ b'.' ∷ b'2' ∷ []

is_address : IsAddress handoff_address
is_address = record {
  plain =
      ((omega arith, omega arith), ((omega arith, omega arith), ((omega arith, omega arith), tt)));
  short = omega arith;
}

parse_dedicated_server_reads_example : parse_dedicated_server handoff_body ≡ (
  some (record {
    addr = handoff_address;
    port = 7;
    session_id = 5;
    zone_id = signed32 3;
    flag = true;
  }),
  none,
)
parse_dedicated_server_reads_example =
    parse_dedicated_server_reads handoff_address 7 5 3 true is_address (omega arith) (omega arith)
      (omega arith) handoff_body (0 ∷ 0 ∷ 0 ∷ 0 ∷ 0 ∷ 0 ∷ 0 ∷ []) (small handoff_body refl)
      (λ e. cc) refl

abbrev one_shard : AssignedShard
one_shard = record { shards = record { ip = handoff_address; port = 7 } ∷ []; chat = none }

abbrev shard_body : Bytes
shard_body = 0x80 ∷ 0x98 ∷ 0x97 ∷ 0x19 ∷ 0 ∷ 0 ∷ 3 ∷ 0x80 ∷ []

parse_assigned_shard_reads_example : parse_assigned_shard shard_body ≡ (some one_shard, none)
parse_assigned_shard_reads_example =
    parse_assigned_shard_reads true one_shard shard_body (0 ∷ 0 ∷ 0 ∷ 0 ∷ 0 ∷ 0 ∷ [])
      (record {
        shards_fit = ((is_address, omega arith), tt);
        count_fits = omega arith;
        chat_fits = tt;
      })
      (small shard_body refl) refl

shard_parses : parse_assigned_shard shard_body ≡ (some one_shard, none)
shard_parses =
    parse_assigned_shard_reads true one_shard shard_body (0 ∷ 0 ∷ 0 ∷ 0 ∷ 0 ∷ 0 ∷ [])
      (record {
        shards_fit = ((is_address, omega arith), tt);
        count_fits = omega arith;
        chat_fits = tt;
      })
      (small shard_body refl) refl

parse_assigned_shard_bounds_example : Held shard_body one_shard
parse_assigned_shard_bounds_example =
    parse_assigned_shard_bounds shard_body one_shard none shard_parses
