-- ===== src/Decode/Pipeline/Counts.antt =====
-- Records of sc-capture/internal/decode/pipeline.go, one for a message or a datagram, numbered in the order they are
-- handed out.
use star_konflict.Base.Int.{ℤ}
use star_konflict.Base.{
  ℕ, ◌+◌, ◌%◌, Bool, true, false, List, [], ◌∷◌, ◌++◌, ◌≡◌, refl, ◌∙◌, Bytes, length, arith, Option,
  none, some, u64_mod, if◌then◌else◌,
}
use star_konflict.Flow.{Connection, Direction}
use star_konflict.Scproto.Framing.{Message}
use star_konflict.Scproto.Tables.{Tables, Kind, Element}
use star_konflict.Scproto.BitReader.{ReadError}
use star_konflict.Scproto.Bodies.{DedicatedServer, AssignedShard}
use star_konflict.Decode.Record.{FrameRef, Sink, Result, observe_element, note_novel, emit_record}
use star_konflict.Decode.Interpret.{
  Step, special_result, name_message, note_credentials, name_async, name_notification, fail_step,
  announce, decode_handoff, decode_shard, decode_body, describe, interpret,
}

-- What only `emitRecord` and the loop change.
pub record Keeps (p q : Sink) : Type 0 where
  pub seq : q.seq ≡ p.seq
  pub count : q.record_cnt ≡ p.record_cnt
  pub emitted : q.emitted ≡ p.emitted
  pub desyncs : q.desyncs ≡ p.desyncs

pub Keeps-refl : (p : Sink) → Keeps p p
Keeps-refl p = record { seq = refl; count = refl; emitted = refl; desyncs = refl }

pub Keeps-trans : {p q r : Sink} → Keeps p q → Keeps q r → Keeps p r
Keeps-trans h k = record {
  seq = k.seq ∙ h.seq;
  count = k.count ∙ h.count;
  emitted = k.emitted ∙ h.emitted;
  desyncs = k.desyncs ∙ h.desyncs;
}

observe_element-Keeps :
    (p : Sink) (kind : Kind) (id : ℕ) (done : Bool) → Keeps p (observe_element p kind id done)
unfolding observe_element
observe_element-Keeps p kind id done = record {
  seq = refl;
  count = refl;
  emitted = refl;
  desyncs = refl;
}

note_novel-Keeps : (p : Sink) (e : Element) → Keeps p (note_novel p e)
unfolding note_novel
note_novel-Keeps p e = ground arith

note_credentials-Keeps : (seen : Bool) (p : Sink) → Keeps p (note_credentials seen p)
unfolding note_credentials
note_credentials-Keeps seen p = ground arith

Keeps-if :
    (c : Bool) {p : Sink} (s t : Step)
    → Keeps p s.sink
    → Keeps p t.sink
    → Keeps p (if c then s else t).sink
Keeps-if true s t h k = h
Keeps-if false s t h k = k

name_message-Keeps : (names : Tables) (p : Sink) (mt : ℕ) → Keeps p (name_message names p mt).sink
unfolding name_message
name_message-Keeps names p mt =
    Keeps-if _ _ _ (note_novel-Keeps p _) (observe_element-Keeps p _ mt false)

name_async-Keeps :
    (names : Tables) (s : Step) (op : Option ℕ) → Keeps s.sink (name_async names s op).sink
unfolding name_async
name_async-Keeps names s none = Keeps-refl s.sink
name_async-Keeps names s (some op) =
    Keeps-if _ _ _
      (Keeps-trans (observe_element-Keeps s.sink _ op false) (note_credentials-Keeps _ _))
      (note_novel-Keeps s.sink _)

name_notification-Keeps :
    (names : Tables) (s : Step) (nt : Option ℕ) → Keeps s.sink (name_notification names s nt).sink
unfolding name_notification
name_notification-Keeps names s none = Keeps-refl s.sink
name_notification-Keeps names s (some nt) =
    Keeps-if _ _ _ (observe_element-Keeps s.sink _ nt false) (note_novel-Keeps s.sink _)

fail_step-Keeps : (s : Step) (why : Bytes) → Keeps s.sink (fail_step s why).sink
unfolding fail_step
fail_step-Keeps s why = record { seq = refl; count = refl; emitted = refl; desyncs = refl }

announce-Keeps : (p : Sink) (ds : DedicatedServer) (wall : ℕ) → Keeps p (announce p ds wall)
unfolding announce
announce-Keeps p ds wall = ground arith

decode_handoff-Keeps :
    (s : Step) (mt wall : ℕ) (r : Option DedicatedServer × Option ReadError)
    → Keeps s.sink (decode_handoff s mt wall r).sink
unfolding decode_handoff
decode_handoff-Keeps s mt wall (none, some e) = fail_step-Keeps s _
decode_handoff-Keeps s mt wall (none, none) = fail_step-Keeps s _
decode_handoff-Keeps s mt wall (some ds, e) =
    Keeps-trans (announce-Keeps s.sink ds wall) (observe_element-Keeps _ _ mt true)

decode_shard-Keeps :
    (s : Step) (mt : ℕ) (r : Option AssignedShard × Option ReadError)
    → Keeps s.sink (decode_shard s mt r).sink
unfolding decode_shard
decode_shard-Keeps s mt (none, some e) = fail_step-Keeps s _
decode_shard-Keeps s mt (none, none) = fail_step-Keeps s _
decode_shard-Keeps s mt (some out, e) = observe_element-Keeps s.sink _ mt true

decode_body-Keeps :
    (names : Tables) (s : Step) (msg : Message) (wall : ℕ)
    → Keeps s.sink (decode_body names s msg wall).sink
unfolding decode_body
decode_body-Keeps names s msg wall = Keeps-if _ _ _ (name_async-Keeps names s _) (
    Keeps-if _ _ _ (name_notification-Keeps names s _) (
      Keeps-if _ _ _ (decode_handoff-Keeps s _ wall _)
        (Keeps-if _ _ _ (decode_shard-Keeps s _ _) (Keeps-refl s.sink))))

pub describe-Keeps :
    (names : Tables) (p : Sink) (msg : Message) (wall : ℕ)
    → Keeps p (describe names p msg wall).sink
unfolding describe
describe-Keeps names p msg wall =
    Keeps-trans (name_message-Keeps names p msg.header.type)
      (Keeps-trans (note_credentials-Keeps _ _) (decode_body-Keeps names _ msg wall))

-- What the record of a message says of it.
abbrev pub result_of : Tables → Sink → Message → ℕ → Result
result_of names p msg wall =
    if msg.header.special then special_result msg else (describe names p msg wall).result

-- One record more, numbered behind the last.
pub record Emits (p q : Sink) (conn : Bytes) (dir : Direction) (wall : ℕ) (mono : ℤ)
    (frames : List FrameRef) (n : ℕ) (res : Result) : Type 0 where
  pub seq : q.seq ≡ (p.seq + 1) % u64_mod
  pub count : q.record_cnt ≡ (p.record_cnt + 1) % u64_mod
  pub desyncs : q.desyncs ≡ p.desyncs
  pub emitted :
      q.emitted
      ≡ p.emitted
        ++ record {
          seq = (p.seq + 1) % u64_mod;
          conn_id = conn;
          dir = dir;
          t_wall = wall;
          t_mono = mono;
          frames = frames;
          byte_len = n;
          decode = res;
        }
          ∷ []

pub emit_record-Emits :
    {p k : Sink}
    → Keeps p k
    → (conn : Connection) (dir : Direction) (wall : ℕ) (mono : ℤ) (frames : List FrameRef) (n : ℕ)
      (res : Result)
    → Emits p
        (emit_record k conn dir wall mono frames n res)
        conn.conn_id
        dir
        wall
        mono
        frames
        n
        res
unfolding emit_record
emit_record-Emits h conn dir wall mono frames n res = record {
  seq = rw h.seq;
  count = rw h.count;
  desyncs = h.desyncs;
  emitted = rw (h.emitted, h.seq);
}

Emits-if :
    (c : Bool) {p q r : Sink} {conn : Bytes} {dir : Direction} {wall : ℕ} {mono : ℤ}
    {frames : List FrameRef} {n : ℕ} {one two : Result}
    → Emits p q conn dir wall mono frames n one
    → Emits p r conn dir wall mono frames n two
    → Emits p (if c then q else r) conn dir wall mono frames n (if c then one else two)
Emits-if true h k = h
Emits-if false h k = k

-- Whatever the message is, `interpret` hands out exactly one record for it, behind those handed out
-- before: its number and the count of records go up by one (modulo 2^64), it carries the
-- connection, the direction, the clock readings and the frames given and the length of the message's bytes, and no desync is counted.
pub interpret-Emits :
    (names : Tables) (p : Sink) (conn : Connection) (dir : Direction) (msg : Message) (wall : ℕ)
    (mono : ℤ) (frames : List FrameRef)
    → Emits p
        (interpret names p conn dir msg wall mono frames)
        conn.conn_id
        dir
        wall
        mono
        frames
        (length msg.raw)
        (result_of names p msg wall)
unfolding interpret
interpret-Emits names p conn dir msg wall mono frames =
    Emits-if msg.header.special (emit_record-Emits (Keeps-refl p) conn dir wall mono frames _ _)
      (emit_record-Emits (describe-Keeps names p msg wall) conn dir wall mono frames _ _)
