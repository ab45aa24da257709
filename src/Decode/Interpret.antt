-- ===== src/Decode/Interpret.antt =====
-- `interpret` of sc-capture/internal/decode/pipeline.go: what a message is, and what is noted of
-- it. `isolate.Run` turns a panic into an error; the only one that the code could meet is a nil
-- pointer with a nil error, which becomes a failure here as well.
use star_konflict.Base.Int.{ℤ}
use star_konflict.Base.{
  ℕ, ◌+◌, Bool, true, false, not, List, [], ◌∷◌, ◌++◌, Bytes, text, Option, none, some, ◌==◌,
  if◌then◌else◌, length, map,
}
use star_konflict.Base.Decimal.{decimal}
use star_konflict.Flow.{Connection, Direction, announce_dedicated}
use star_konflict.Scproto.Framing.{
  Message, async_request_type, notification_type, cscmd_async_req, scmd_notification,
}
use star_konflict.Scproto.Types.{
  message_type_string, async_req_type_string, notification_type_string, known, carries_credentials,
  scmd_connect_dedicated_server, scmd_assigned_shard, ac_player_credentials,
}
use star_konflict.Scproto.Tables.{Tables, kind_message_type, kind_async_request, kind_notification}
use star_konflict.Scproto.BitReader.{ReadError}
use star_konflict.Scproto.Bodies.{
  DedicatedServer, Endpoint, AssignedShard, parse_dedicated_server, parse_assigned_shard, is_empty,
}
use star_konflict.Decode.Record.{
  decoded, undecoded, unknown_element, failed, FrameRef, sentinel, handoff_fields, shard_fields,
  Result, Sink, empty_result, error_text, sharp_hex, observe_element, note_novel, emit_record,
}

-- A step of `interpret`: the pipeline and the result so far.
pub record Step : Type 0 where
  pub sink : Sink
  pub result : Result

unfoldable pub special_result : Message → Result
special_result msg = record empty_result {
  status = decoded;
  message_type = text "SPECIAL_FRAME";
  fields = some (sentinel (sharp_hex msg.header.length));
}

-- `if !mt.Known() { … } else { … }`.
unfoldable pub name_message : Tables → Sink → ℕ → Step
name_message names p mt =
    let res = record empty_result {
      message_type_id = some mt;
      message_type = message_type_string names mt;
      element_kind = kind_message_type;
    } in
    if not (known names kind_message_type mt)
    then record {
      sink =
          note_novel p
            (record { kind = kind_message_type; id = mt; name = message_type_string names mt });
      result = record res {
        status = unknown_element;
        novel = true;
        reason = text "message type absent from the known universe";
      };
    }
    else record {
      sink = observe_element p kind_message_type mt false;
      result = record res {
        status = undecoded;
        reason = text "body layout not known for this message type";
      };
    }

unfoldable pub note_credentials : Bool → Sink → Sink
note_credentials seen p = if seen then record p { cred_seen = true } else p

unfoldable pub name_async : Tables → Step → Option ℕ → Step
name_async names s none = s
name_async names s (some op) =
    let name = async_req_type_string names op in
    let res = record s.result {
      element = name;
      element_id = some op;
      element_kind = kind_async_request;
    } in
    if known names kind_async_request op
    then record {
      sink =
          note_credentials (op == ac_player_credentials)
            (observe_element s.sink kind_async_request op false);
      result = record res {
        status = undecoded;
        reason = text "opcode known, body layout not decoded";
      };
    }
    else record {
      sink = note_novel s.sink (record { kind = kind_async_request; id = op; name = name });
      result = record res {
        status = unknown_element;
        novel = true;
        reason = text "async-request opcode absent from the known universe";
      };
    }

unfoldable pub name_notification : Tables → Step → Option ℕ → Step
name_notification names s none = s
name_notification names s (some nt) =
    let name = notification_type_string names nt in
    let res = record s.result {
      element = name;
      element_id = some nt;
      element_kind = kind_notification;
    } in
    if known names kind_notification nt
    then record {
      sink = observe_element s.sink kind_notification nt false;
      result = record res {
        status = undecoded;
        reason = text "notification type known, body layout not decoded";
      };
    }
    else record {
      sink = note_novel s.sink (record { kind = kind_notification; id = nt; name = name });
      result = record res {
        status = unknown_element;
        novel = true;
        reason = text "notification type absent from the known universe";
      };
    }

-- `res.Status = StatusFailed; res.Reason = err.Error(); p.failures++`.
unfoldable pub fail_step : Step → Bytes → Step
fail_step s why = record {
  sink = record s.sink { failures = s.sink.failures + 1 };
  result = record s.result { status = failed; reason = why };
}

abbrev pub nil_pointer : Bytes
nil_pointer =
    text "decoder panicked: runtime error: invalid memory address or nil pointer dereference"

-- `if err != nil { res.Reason = err.Error() }`.
unfoldable pub reason_or : Option ReadError → Bytes → Bytes
reason_or none old = old
reason_or (some e) old = error_text e

unfoldable pub announce : Sink → DedicatedServer → ℕ → Sink
announce p ds wall = if is_empty ds.addr then p else record p {
  table = announce_dedicated p.table ds.addr ds.port ds.session_id;
  handoffs =
      p.handoffs
      ++ record {
        addr = ds.addr;
        port = ds.port;
        session_id = ds.session_id;
        zone_id = ds.zone_id;
        at = wall;
      }
        ∷ [];
}

unfoldable pub decode_handoff : Step → ℕ → ℕ → Option DedicatedServer × Option ReadError → Step
decode_handoff s mt wall (none, some e) = fail_step s (error_text e)
decode_handoff s mt wall (none, none) = fail_step s nil_pointer
decode_handoff s mt wall (some ds, e) = record {
  sink = observe_element (announce s.sink ds wall) kind_message_type mt true;
  result = record s.result {
    status = decoded;
    fields = some (handoff_fields ds.addr ds.port ds.session_id ds.zone_id);
    reason = reason_or e s.result.reason;
  };
}

-- `fmt.Sprintf("%s:%d", e.IP, e.Port)`.
unfoldable pub endpoint_text : Endpoint → Bytes
endpoint_text e = e.ip ++ (b':' ∷ decimal e.port)

unfoldable pub chat_text : Option Endpoint → Option Bytes
chat_text none = none
chat_text (some e) = some (endpoint_text e)

unfoldable pub decode_shard : Step → ℕ → Option AssignedShard × Option ReadError → Step
decode_shard s mt (none, some e) = fail_step s (error_text e)
decode_shard s mt (none, none) = fail_step s nil_pointer
decode_shard s mt (some out, e) = record {
  sink = observe_element s.sink kind_message_type mt true;
  result = record s.result {
    status = decoded;
    fields = some (shard_fields (map endpoint_text out.shards) (chat_text out.chat));
    reason = reason_or e s.result.reason;
  };
}

-- The switch on the message type.
unfoldable pub decode_body : Tables → Step → Message → ℕ → Step
decode_body names s msg wall =
    let mt = msg.header.type in
    if mt == cscmd_async_req
    then name_async names s (async_request_type msg)
    else if mt == scmd_notification
    then name_notification names s (notification_type msg)
    else if mt == scmd_connect_dedicated_server
    then decode_handoff s mt wall (parse_dedicated_server msg.body)
    else if mt == scmd_assigned_shard
    then decode_shard s mt (parse_assigned_shard msg.body)
    else s

-- Everything of a message that is no sentinel, up to the emission of its record.
unfoldable pub describe : Tables → Sink → Message → ℕ → Step
describe names p msg wall =
    let named = name_message names p msg.header.type in
    decode_body names
      (record named { sink = note_credentials (carries_credentials msg.header.type) named.sink })
      msg wall

unfoldable pub interpret :
    Tables → Sink → Connection → Direction → Message → ℕ → ℤ → List FrameRef → Sink
interpret names p conn dir msg wall mono frames =
    if msg.header.special
    then emit_record p conn dir wall mono frames (length msg.raw) (special_result msg)
    else (let s = describe names p msg wall in
        emit_record s.sink conn dir wall mono frames (length msg.raw) s.result)
