-- ===== src/Scproto/Bodies/Bounds.antt =====
-- How much `ParseAssignedShard` of sc-capture/pkg/scproto/bodies.go can make of a body.
use star_konflict.Base.{
  ℕ, zero, suc, ◌+◌, ◌*◌, ◌≤◌, ◌<◌, Bool, true, false, List, [], ◌∷◌, ◌++◌, ◌≡◌, refl, ap, ◌∙◌,
  Bytes, length, All, arith, length-append, Option, none, some, u8_mod, u16_mod,
}
use mathlib.Core.Path.{subst}
use star_konflict.Scproto.BitReader.{
  BitReader, Field, leading_flag, shard_count, chat_address, chat_port, shard_address, shard_port,
  ReadError, in_field, Result, ok, err, M, new_bit_reader, bool, uint8, uint16, cstring,
  max_string_length,
}
use star_konflict.Scproto.BitReader.Inside.{
  Taken, Moved, Inside, Inside-return, Inside->>=, Inside-weaken, Any, Inside-bool, Inside-uint8,
  Inside-uint16, Inside-cstring,
}
use star_konflict.Scproto.Bodies.{
  Endpoint, AssignedShard, at, endpoint, ShardsRead, shards_loop, chat_result, chat_part, with_chat,
  shard_header, shards_result, parse_assigned_shard,
}

Inside-at :
    {A : Type 0} {P : A → Type 0} (k : ℕ) (f : Field) (m : M A) → Inside k P m → Inside k P (at f m)
unfolding at
Inside-at {A} {P} k f m p = record { run = λ r h. after r (m r) (p.run r h) }
  where
    after :
        (r : BitReader) (o : Result A × BitReader)
        → Moved k P r o
        → Moved {A = A} k P r (elim o.0 [ ok x ↦ (ok x, o.1) | err e ↦ (err (in_field f e), o.1) ])
    after r (err e, s) mv = record { same_buf = mv.same_buf; inside = mv.inside; taken = tt }
    after r (ok a, s) mv = record { same_buf = mv.same_buf; inside = mv.inside; taken = mv.taken }

-- A text shorter than `MaxStringLength` and a port of 16 bits.
pub record Bounded (e : Endpoint) : Type 0 where
  pub ip : length e.ip < max_string_length
  pub port : e.port < u16_mod

Inside-endpoint : (f g : Field) → Inside 24 Bounded (endpoint f g)
unfolding endpoint
Inside-endpoint f g = Inside->>= 8 16 _ _ (Inside-at 8 f cstring Inside-cstring) (λ ip p.
    Inside-weaken (16 + 0) 16 _ (omega arith) (λ a q. q)
      (Inside->>= 16 0 _ _ (Inside-at 16 g uint16 Inside-uint16)
        (λ n q. Inside-return (record { ip = ip; port = n }) (record { ip = p; port = q }))))

Inside-shard_header : Inside 9 (λ n. n < u8_mod) shard_header
unfolding shard_header
Inside-shard_header =
    Inside->>= 1 8 _ _ (Inside-at 1 leading_flag bool Inside-bool)
      (λ b p. Inside-at 8 shard_count uint8 Inside-uint8)

All-append :
    (xs : List Endpoint) (e : Endpoint) → All Bounded xs → Bounded e → All Bounded (xs ++ e ∷ [])
All-append [] e a b = (b, tt)
All-append (x ∷ xs) e a b = (a.0, All-append xs e a.1 b)

-- What the loop over the shards leaves when it starts with `out` at `r`.
record ShardsLeft (left : ℕ) (out : List Endpoint) (r : BitReader) (s : ShardsRead) : Type 0 where
  few : length s.shards ≤ length out + left
  fit : r.bit + 24 * length s.shards ≤ length r.buf * 8 + 24 * length out
  bounded : All Bounded s.shards
  inside : s.reader.bit ≤ length s.reader.buf * 8

shards_loop-ShardsLeft :
    (left i : ℕ) (out : List Endpoint) (r : BitReader)
    → r.bit ≤ length r.buf * 8
    → All Bounded out
    → ShardsLeft left out r (shards_loop left i out r)
unfolding shards_loop
shards_loop-ShardsLeft zero i out r h a = record {
  few = omega arith;
  fit = omega (arith, h);
  bounded = a;
  inside = h;
}
shards_loop-ShardsLeft (suc left) i out r h a =
    after (endpoint (shard_address i) (shard_port i) r)
      ((Inside-endpoint (shard_address i) (shard_port i)).run r h)
      (λ e s g b. shards_loop-ShardsLeft left (i + 1) (out ++ e ∷ []) s g (All-append out e a b))
  where
    after :
        (o : Result Endpoint × BitReader)
        → Moved 24 Bounded r o
        → ((e : Endpoint) (s : BitReader)
            → s.bit ≤ length s.buf * 8
            → Bounded e
            → ShardsLeft left (out ++ e ∷ []) s (shards_loop left (i + 1) (out ++ e ∷ []) s))
        → ShardsLeft (suc left) out r (elim o.0 [
          | ok e ↦ shards_loop left (i + 1) (out ++ e ∷ []) o.1
          | err x ↦ record { shards = out; error = some x; reader = o.1 }
        ])
    after (err x, s) mv next = record {
      few = omega arith;
      fit = omega (arith, h);
      bounded = a;
      inside = rw mv.same_buf mv.inside;
    }
    after (ok e, s) mv next =
        let l = next e s (rw mv.same_buf mv.inside) mv.taken.1 in
        let longer = length-append out (e ∷ []) in
        let same_length : length s.buf ≡ length r.buf = ap length mv.same_buf in
        record {
          few = omega (arith, l.few, longer);
          fit = omega (arith, l.fit, longer, mv.taken.0, same_length);
          bounded = l.bounded;
          inside = l.inside;
        }

abbrev pub IsBounded : Option Endpoint → Type 0
IsBounded none = Unit
IsBounded (some e) = Bounded e

chat_part-Bounded : (r : BitReader) → r.bit ≤ length r.buf * 8 → IsBounded (chat_part (bool r)).0
unfolding chat_part
chat_part-Bounded r h = flag (bool r) (Inside-bool.run r h)
  where
    chat : (o : Result Endpoint) (b c : ℕ) → Taken 24 Bounded b c o → IsBounded (chat_result o).0
    chat (ok e) b c t = unfold chat_result in t.1
    chat (err x) b c t = unfold chat_result in tt

    flag : (o : Result Bool × BitReader) → Moved 1 Any r o → IsBounded (chat_part o).0
    flag (err x, s) mv = tt
    flag (ok false, s) mv = tt
    flag (ok true, s) mv =
        chat (endpoint chat_address chat_port s).0 _ _
          ((Inside-endpoint chat_address chat_port).run s (rw mv.same_buf mv.inside)).taken

-- What a body can make the parser return.
pub record Held (body : Bytes) (s : AssignedShard) : Type 0 where
  pub few : length s.shards < u8_mod
  pub fit : 9 + 24 * length s.shards ≤ length body * 8
  pub shards : All Bounded s.shards
  pub chat : IsBounded s.chat

abbrev IsHeld : Bytes → Option AssignedShard → Type 0
IsHeld body none = Unit
IsHeld body (some s) = Held body s

with_chat-Held :
    (body : Bytes) (shards : List Endpoint) (r : BitReader)
    → length shards < u8_mod
    → 9 + 24 * length shards ≤ length body * 8
    → All Bounded shards
    → r.bit ≤ length r.buf * 8
    → (o : Option ReadError) → IsHeld body (with_chat o shards r).0
unfolding with_chat
with_chat-Held body shards r few fit all inside (some x) = record {
  few = few;
  fit = fit;
  shards = all;
  chat = tt;
}
with_chat-Held body shards r few fit all inside none = record {
  few = few;
  fit = fit;
  shards = all;
  chat = chat_part-Bounded r inside;
}

shards_result-Held :
    (body : Bytes) (r : BitReader) (o : Result ℕ × BitReader)
    → r.buf ≡ body
    → r.bit ≡ 0
    → Moved 9 (λ n. n < u8_mod) r o
    → IsHeld body (shards_result o).0
unfolding shards_result
shards_result-Held body r (err e, s) b z mv = tt
shards_result-Held body r (ok n, s) b z mv =
    let l = shards_loop-ShardsLeft n 0 [] s (rw mv.same_buf mv.inside) tt in
    let same_length : length s.buf ≡ length body = ap length (mv.same_buf ∙ b) in
    with_chat-Held body _ _ (omega (arith, l.few, mv.taken.1))
      (omega (arith, l.fit, mv.taken.0, same_length)) l.bounded l.inside _

parse_assigned_shard-Held : (body : Bytes) → IsHeld body (parse_assigned_shard body).0
unfolding parse_assigned_shard new_bit_reader
parse_assigned_shard-Held body =
    shards_result-Held body (new_bit_reader body) _ refl refl
      (Inside-shard_header.run (new_bit_reader body) (omega arith))

-- Whatever the bytes of a body are, an assigned shard that the parser returns, with an error or
-- without, has at most 255 shards, which take 24 bits each behind the nine of the header, and every
-- text in it is shorter than `MaxStringLength`, every port below 2^16.
pub parse_assigned_shard_bounds :
    (body : Bytes) (s : AssignedShard) (e : Option ReadError)
    → parse_assigned_shard body ≡ (some s, e)
    → Held body s
parse_assigned_shard_bounds body s e h =
    subst (IsHeld body) (ap (λ o. o.0) h) (parse_assigned_shard-Held body)
