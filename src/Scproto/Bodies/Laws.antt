-- ===== src/Scproto/Bodies/Laws.antt =====
-- The two bodies against what the game's bit writer puts on the wire for them.
use star_konflict.Base.{
  ℕ, suc, ◌+◌, ◌<◌, Bool, true, false, List, [], ◌∷◌, ◌++◌, ◌≡◌, ◌≢◌, refl, sym, ap, ◌∙◌, Bytes,
  Option, none, some, length, arith, append-nil, append_assoc, length-append, All, u8_mod, u16_mod,
  u32_mod, u64_mod,
}
use star_konflict.Base.Int.{signed32}
use star_konflict.Scproto.BitReader.{
  BitReader, Field, addr, port, session_id, zone_id, leading_flag, shard_count, chat_address,
  chat_port, shard_address, shard_port, ReadError, in_field, Result, ok, err, M, new_bit_reader,
  bool, max_string_length,
}
use star_konflict.Scproto.BitReader.Bits.{uint_bits, bits, AreBytes, ahead, advance}
use star_konflict.Scproto.BitReader.Reads.{
  Reads, Reads-return, Reads->>=, Reads-eq, Reads-uint8, Reads-uint16, Reads-uint64, Reads-int32,
  Reads-bool, Reads-cstring, string_bits, IsText, flag_bit, ahead-advance,
}
use star_konflict.Scproto.Bodies.{
  DedicatedServer, Endpoint, AssignedShard, at, dedicated_result, chat_result, shards_result,
  tolerate, dedicated_fields, checked_address, parse_dedicated_server, endpoint, ShardsRead,
  shards_loop, chat_part, with_chat, shard_header, parse_assigned_shard, is_empty,
}

Reads-at :
    {A : Type 0} (f : Field) {m : M A} {bs : List ℕ} {a : A} → Reads m bs a → Reads (at f m) bs a
unfolding at
Reads-at {A} f p = record { run = λ r rest h e. ap on_result (p.run r rest h e) }
  where
    on_result : Result A × BitReader → Result A × BitReader
    on_result o = elim o.0 [ ok x ↦ (ok x, o.1) | err x ↦ (err (in_field f x), o.1) ]

Reads-tolerate : {m : M Bool} {bs : List ℕ} {a : Bool} → Reads m bs a → Reads (tolerate m) bs a
unfolding tolerate
Reads-tolerate p = record { run = λ r rest h e. ap on_result (p.run r rest h e) }
  where
    on_result : Result Bool × BitReader → Result Bool × BitReader
    on_result o = elim o.0 [ ok x ↦ (ok x, o.1) | err x ↦ (ok false, o.1) ]

-- A string that the reader accepts.
pub record IsAddress (s : Bytes) : Type 0 where
  pub plain : IsText s
  pub short : length s < max_string_length

-- The wire form of the handoff; `zone` is the bit pattern of its int32.
abbrev pub handoff_bits : Bytes → ℕ → ℕ → ℕ → Bool → List ℕ
handoff_bits a p s zone f =
    string_bits a
    ++ (uint_bits 16 p ++ (uint_bits 64 s ++ (uint_bits 32 zone ++ (flag_bit f ∷ []))))

module _ (a : Bytes) (p s zone : ℕ) (f : Bool) (text : IsAddress a) (hp : p < u16_mod)
    (hs : s < u64_mod) (hz : zone < u32_mod) where
  abbrev pub handoff : DedicatedServer
  handoff = record { addr = a; port = p; session_id = s; zone_id = signed32 zone; flag = f }

  Reads-dedicated_fields : Reads dedicated_fields (handoff_bits a p s zone f) handoff
  unfolding dedicated_fields
  Reads-dedicated_fields = Reads->>= _ (Reads-at addr (Reads-cstring a text.plain text.short)) (
      Reads->>= _ (Reads-at port (Reads-uint16 p hp)) (
        Reads->>= _ (Reads-at session_id (Reads-uint64 s hs)) (
          Reads->>= _ (Reads-at zone_id (Reads-int32 zone hz))
            (Reads->>= _ (Reads-tolerate (Reads-bool f)) (Reads-return handoff)))))

  -- A body of bytes whose bits are those of a handoff, with an address of text that is not empty
  -- and shorter than the limit and with numbers of their widths, is parsed to that handoff
  -- without an error, whatever the padding.
  pub parse_dedicated_server_reads :
      (body : Bytes) (pad : List ℕ)
      → AreBytes body
      → a ≢ []
      → bits body ≡ handoff_bits a p s zone f ++ pad
      → parse_dedicated_server body ≡ (some handoff, none)
  unfolding parse_dedicated_server new_bit_reader
  parse_dedicated_server_reads body pad h ne e =
      ap (λ (o : Result DedicatedServer × BitReader). dedicated_result o.0)
        (Reads-dedicated_fields.run (new_bit_reader body) pad h e)
      ∙ with_address a ne
    where
      with_address :
          (a : Bytes)
          → a ≢ []
          → dedicated_result (
              ok (record { addr = a; port = p; session_id = s; zone_id = signed32 zone; flag = f }))
            ≡ (
              some (record {
                addr = a;
                port = p;
                session_id = s;
                zone_id = signed32 zone;
                flag = f;
              }),
              none,
            )
      with_address [] ne = absurd (ne refl)
      with_address (c ∷ cs) ne = unfold dedicated_result checked_address is_empty in refl

-- If `ParseDedicatedServer` returns a nil pointer, it returns an error with it.
pub parse_dedicated_server_nil :
    (body : Bytes)
    → (parse_dedicated_server body).0 ≡ none
    → (e : ReadError) × ((parse_dedicated_server body).1 ≡ some e)
unfolding parse_dedicated_server
parse_dedicated_server_nil body = by_result (dedicated_fields (new_bit_reader body)).0
  where
    by_result :
        (o : Result DedicatedServer)
        → (dedicated_result o).0 ≡ none
        → (e : ReadError) × ((dedicated_result o).1 ≡ some e)
    by_result (ok ds) = unfold dedicated_result checked_address in ground arith
    by_result (err e) = λ _. (e, unfold dedicated_result in refl)

-- The wire form of a shard assignment.
abbrev endpoint_bits : Endpoint → List ℕ
endpoint_bits e = string_bits e.ip ++ uint_bits 16 e.port

abbrev pub shards_bits : List Endpoint → List ℕ
shards_bits [] = []
shards_bits (e ∷ es) = endpoint_bits e ++ shards_bits es

abbrev pub chat_bits : Option Endpoint → List ℕ
chat_bits none = flag_bit false ∷ []
chat_bits (some e) = flag_bit true ∷ endpoint_bits e

abbrev pub assignment_bits : Bool → AssignedShard → List ℕ
assignment_bits lead out =
    flag_bit lead
    ∷ (uint_bits 8 (length out.shards) ++ (shards_bits out.shards ++ chat_bits out.chat))

abbrev pub IsEndpoint : Endpoint → Type 0
IsEndpoint e = IsAddress e.ip × (e.port < u16_mod)

Reads-endpoint :
    (i p : Field) (e : Endpoint) → IsEndpoint e → Reads (endpoint i p) (endpoint_bits e) e
unfolding endpoint
Reads-endpoint i p e h = Reads-eq (ap (λ q. string_bits e.ip ++ q) (append-nil _)) refl (
    Reads->>= _ (Reads-at i (Reads-cstring e.ip h.0.plain h.0.short))
      (Reads->>= _ (Reads-at p (Reads-uint16 e.port h.1)) (Reads-return e)))

shards_loop_step :
    (left i : ℕ) (out : List Endpoint) (r s : BitReader) {x : Endpoint}
    → endpoint (shard_address i) (shard_port i) r ≡ (ok x, s)
    → shards_loop (suc left) i out r ≡ shards_loop left (i + 1) (out ++ x ∷ []) s
unfolding shards_loop
shards_loop_step left i out r s e = ap on_result e
  where
    on_result : Result Endpoint × BitReader → ShardsRead
    on_result o = elim o.0 [
      | ok e ↦ shards_loop left (i + 1) (out ++ e ∷ []) o.1
      | err x ↦ record { shards = out; error = some x; reader = o.1 }
    ]

abbrev all_read : List Endpoint → BitReader → ShardsRead
all_read es r = record { shards = es; error = none; reader = r }

shards_loop-reads :
    (es : List Endpoint) (i : ℕ) (out : List Endpoint) (r : BitReader) (rest : List ℕ)
    → All IsEndpoint es
    → AreBytes r.buf
    → ahead r ≡ shards_bits es ++ rest
    → shards_loop (length es) i out r ≡ all_read (out ++ es) (advance r (length (shards_bits es)))
shards_loop-reads [] i out r rest h b e =
    unfold shards_loop in λ j. all_read (sym (append-nil out) j) (record r { bit = at_zero j })
  where
    at_zero : r.bit ≡ r.bit + 0
    at_zero = omega arith
shards_loop-reads (x ∷ es) i out r rest h b e =
    let here = e ∙ append_assoc (endpoint_bits x) (shards_bits es) rest in
    let read = (Reads-endpoint (shard_address i) (shard_port i) x h.0).run r _ b here in
    let later = ahead-advance r (endpoint_bits x) _ here in
    let s = advance r (length (endpoint_bits x)) in
    let total : r.bit + length (endpoint_bits x) + length (shards_bits es)
        ≡ r.bit + length (shards_bits (x ∷ es)) =
      omega (arith, length-append (endpoint_bits x) (shards_bits es)) in
    shards_loop_step (length es) i out r s read
    ∙ shards_loop-reads es (i + 1) (out ++ x ∷ []) s rest h.1 b later
    ∙ (λ j. all_read (append_assoc out (x ∷ []) es j) (record r { bit = total j }))

abbrev IsChat : Option Endpoint → Type 0
IsChat none = Unit {0}
IsChat (some e) = IsEndpoint e

-- Addresses and ports in range, and no more shards than a uint8 counts.
pub record IsAssignment (out : AssignedShard) : Type 0 where
  pub shards_fit : All IsEndpoint out.shards
  pub count_fits : length out.shards < u8_mod
  pub chat_fits : IsChat out.chat

chat_part-reads :
    (c : Option Endpoint) (r : BitReader) (pad : List ℕ)
    → IsChat c
    → AreBytes r.buf
    → ahead r ≡ chat_bits c ++ pad
    → chat_part (bool r) ≡ (c, none)
chat_part-reads none r pad h b e =
    ap chat_part ((Reads-bool false).run r pad b e) ∙ unfold chat_part in refl
chat_part-reads (some x) r pad h b e =
    let flag = (Reads-bool true).run r (endpoint_bits x ++ pad) b e in
    let later = ahead-advance r (1 ∷ []) (endpoint_bits x ++ pad) e in
    let read = (Reads-endpoint chat_address chat_port x h).run (advance r 1) pad b later in
    ap chat_part flag
    ∙ unfold chat_part chat_result in ap (λ (o : Result Endpoint × BitReader). chat_result o.0) read

Reads-shard_header :
    (lead : Bool) (n : ℕ) → n < u8_mod → Reads shard_header (flag_bit lead ∷ uint_bits 8 n) n
unfolding shard_header
Reads-shard_header lead n h =
    Reads->>= _ (Reads-at leading_flag (Reads-bool lead)) (Reads-at shard_count (Reads-uint8 n h))

-- A body of bytes whose bits are those of a shard assignment, with addresses of text shorter than
-- the limit, 16-bit ports and fewer than 256 shards, is parsed to that assignment without an
-- error, whatever the leading flag and the padding.
pub parse_assigned_shard_reads :
    (lead : Bool) (out : AssignedShard) (body : Bytes) (pad : List ℕ)
    → IsAssignment out
    → AreBytes body
    → bits body ≡ assignment_bits lead out ++ pad
    → parse_assigned_shard body ≡ (some out, none)
unfolding parse_assigned_shard new_bit_reader shards_result with_chat
parse_assigned_shard_reads lead out body pad h b e =
    let r = new_bit_reader body in
    let head = flag_bit lead ∷ uint_bits 8 (length out.shards) in
    let tail = shards_bits out.shards ++ (chat_bits out.chat ++ pad) in
    let input : ahead r ≡ head ++ tail =
      e ∙ ap (λ q. head ++ q) (append_assoc (shards_bits out.shards) (chat_bits out.chat) pad) in
    let header = (Reads-shard_header lead (length out.shards) h.count_fits).run r tail b input in
    let s = advance r (length head) in
    let after_head = ahead-advance r head tail input in
    let shards =
      shards_loop-reads out.shards 0 [] s (chat_bits out.chat ++ pad) h.shards_fit b after_head in
    let t = advance s (length (shards_bits out.shards)) in
    let after_shards =
      ahead-advance s (shards_bits out.shards) (chat_bits out.chat ++ pad) after_head in
    let chat = chat_part-reads out.chat t pad h.chat_fits b after_shards in
    ap shards_result header
    ∙ ap (λ (read : ShardsRead). with_chat read.error read.shards read.reader) shards
    ∙ ap
        (λ (o : Option Endpoint × Option ReadError).
          (some (record { shards = out.shards; chat = o.0 }), o.1))
        chat
