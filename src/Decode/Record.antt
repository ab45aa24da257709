-- ===== src/Decode/Record.antt =====
-- sc-capture/internal/decode/record.go and the data of pipeline.go. `emit` is the list of records
-- that were handed to the callback; a time is a number of nanoseconds.
use star_konflict.Base.{
  ℕ, ◌+◌, ◌-◌, ◌/◌, ◌%◌, zero, suc, Bool, true, false, List, [], ◌∷◌, ◌++◌, Bytes, text, Option,
  none, ltb, ◌==◌, if◌then◌else◌, length, replicate, u64_mod, ◌&&◌, same,
}
use star_konflict.Base.Decimal.{decimal}
use star_konflict.Base.Int.{ℤ}
use star_konflict.Base.Map.{insert, bytes_eq}
use star_konflict.Flow.{Table, Connection, Direction}
use star_konflict.Scproto.Tables.{Kind, Element, key}
use star_konflict.Scproto.BitReader.{
  Field, addr, port, session_id, zone_id, leading_flag, shard_count, chat_address, chat_port,
  shard_address, shard_port, ReadError, eof, bad_width, unterminated, empty_address, in_field,
}

-- `unset` is the empty string that a new result starts with.
pub data Status : Type 0 where
  unset decoded undecoded unknown_element failed : Status

pub record FrameRef : Type 0 where
  pub segment : Bytes
  pub index : ℕ

-- The maps that `interpret` stores in `Fields`.
pub data Fields : Type 0 where
  sentinel : Bytes → Fields
  handoff_fields : Bytes → ℕ → ℕ → ℤ → Fields
  shard_fields : List Bytes → Option Bytes → Fields

pub record Result : Type 0 where
  pub status : Status
  pub message_type : Bytes
  pub message_type_id : Option ℕ
  pub element : Bytes
  pub element_id : Option ℕ
  pub element_kind : Kind
  pub fields : Option Fields
  pub reason : Bytes
  pub novel : Bool
  pub decoder_version : Bytes

pub record Record : Type 0 where
  pub seq : ℕ
  pub conn_id : Bytes
  pub dir : Direction
  pub t_wall : ℕ
  pub t_mono : ℤ
  pub frames : List FrameRef
  pub byte_len : ℕ
  pub decode : Result

pub record Handoff : Type 0 where
  pub addr : Bytes
  pub port : ℕ
  pub session_id : ℕ
  pub zone_id : ℤ
  pub at : ℕ

-- What `interpret` and `emitRecord` read and write of a `Pipeline`; its streams stand apart.
pub record Sink : Type 0 where
  pub table : Table
  pub seq : ℕ
  pub observed : List (Bytes × Bool)
  pub novel : List Element
  pub cred_seen : Bool
  pub desyncs : ℕ
  pub failures : ℕ
  pub handoffs : List Handoff
  pub record_cnt : ℕ
  pub emitted : List Record

unfoldable pub empty_result : Result
empty_result = record {
  status = unset;
  message_type = [];
  message_type_id = none;
  element = [];
  element_id = none;
  element_kind = [];
  fields = none;
  reason = [];
  novel = false;
  decoder_version = text "1";
}

unfoldable pub field_text : Field → Bytes
field_text addr = text "addr"
field_text port = text "port"
field_text session_id = text "session_id"
field_text zone_id = text "zone_id"
field_text leading_flag = text "leading flag"
field_text shard_count = text "shard count"
field_text chat_address = text "chat address"
field_text chat_port = text "chat port"
field_text (shard_address i) = text "shard " ++ (decimal i ++ text " address")
field_text (shard_port i) = text "shard " ++ (decimal i ++ text " port")

-- `err.Error()`.
unfoldable pub error_text : ReadError → Bytes
error_text eof = text "bit reader: past end of buffer"
error_text bad_width = text "bit reader: bad width"
error_text unterminated = text "bit reader: unterminated string"
error_text empty_address = text "handoff carried an empty address"
error_text (in_field f e) = field_text f ++ (text ": " ++ error_text e)

unfoldable pub hex_digit : ℕ → ℕ
hex_digit d = if ltb d 10 then b'0' + d else b'a' + (d - 10)

unfoldable pub hex_loop : ℕ → ℕ → Bytes → Bytes
hex_loop zero n b = b
hex_loop (suc fuel) n b =
    let rest = hex_loop fuel (n / 16) (hex_digit (n % 16) ∷ b) in if n == 0 then b else rest

-- `fmt.Sprintf("%#08x", n)`: eight digits at least behind `0x`.
unfoldable pub sharp_hex : ℕ → Bytes
sharp_hex n =
    let digits = hex_loop n n [] in text "0x" ++ (replicate (8 - length digits) b'0' ++ digits)

-- `observe`: the key of the element, with `!` if its body was decoded.
unfoldable pub observe_element : Sink → Kind → ℕ → Bool → Sink
observe_element p kind id done =
    let k = if done then key kind id ++ b'!' ∷ [] else key kind id in
    record p { observed = insert k true p.observed }

unfoldable pub has_element : Kind → ℕ → List Element → Bool
has_element kind id [] = false
has_element kind id (e ∷ es) =
    if same e.kind kind && e.id == id then true else has_element kind id es

unfoldable pub note_novel : Sink → Element → Sink
note_novel p e =
    if has_element e.kind e.id p.novel then p else record p { novel = p.novel ++ e ∷ [] }

unfoldable pub emit_record :
    Sink → Connection → Direction → ℕ → ℤ → List FrameRef → ℕ → Result → Sink
emit_record p conn dir wall mono frames n res =
    let next = (p.seq + 1) % u64_mod in
    record p {
      seq = next;
      record_cnt = (p.record_cnt + 1) % u64_mod;
      emitted =
          p.emitted
          ++ record {
            seq = next;
            conn_id = conn.conn_id;
            dir = dir;
            t_wall = wall;
            t_mono = mono;
            frames = frames;
            byte_len = n;
            decode = res;
          }
            ∷ [];
    }
