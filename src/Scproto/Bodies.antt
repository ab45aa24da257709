-- ===== src/Scproto/Bodies.antt =====
-- sc-capture/pkg/scproto/bodies.go. A parser returns Go's pair: the pointer (`none` is nil) and
-- the error (`none` is nil).
pub mod Laws
pub mod Bounds
use star_konflict.Base.{
  ℕ, zero, suc, ◌+◌, Bool, true, false, List, [], ◌∷◌, ◌++◌, Bytes, Option, none, some, length,
  if◌then◌else◌, ◌==◌,
}
use star_konflict.Base.Int.{ℤ}
use star_konflict.Scproto.BitReader.{
  BitReader, Field, addr, port, session_id, zone_id, leading_flag, shard_count, chat_address,
  chat_port, shard_address, shard_port, ReadError, empty_address, in_field, Result, ok, err, M,
  ◌>>=◌, return, new_bit_reader, bool, uint8, uint16, uint64, int32, cstring,
}

pub record DedicatedServer : Type 0 where
  pub addr : Bytes
  pub port : ℕ
  pub session_id : ℕ
  pub zone_id : ℤ
  pub flag : Bool

pub record Endpoint : Type 0 where
  pub ip : Bytes
  pub port : ℕ

pub record AssignedShard : Type 0 where
  pub shards : List Endpoint
  pub chat : Option Endpoint

-- `if err != nil { return …, fmt.Errorf("field: %w", err) }`.
unfoldable pub at : {A : Type 0} → Field → M A → M A
at f m r = let (a, r') = m r in elim a [ ok x ↦ (ok x, r') | err e ↦ (err (in_field f e), r') ]

-- `flag, _ := r.Bool()`: the error is dropped and the zero value stands.
unfoldable pub tolerate : M Bool → M Bool
tolerate m r = let (a, r') = m r in elim a [ ok x ↦ (ok x, r') | err e ↦ (ok false, r') ]

-- The reads of `ParseDedicatedServer`, up to its first failing one.
unfoldable pub dedicated_fields : M DedicatedServer
dedicated_fields = do
  a ← at addr cstring
  p ← at port uint16
  s ← at session_id uint64
  z ← at zone_id int32
  f ← tolerate bool
  return (record { addr = a; port = p; session_id = s; zone_id = z; flag = f })

unfoldable pub is_empty : Bytes → Bool
is_empty [] = true
is_empty (_ ∷ _) = false

-- `if addr == ""`: what was read is returned together with an error.
unfoldable pub checked_address : DedicatedServer → Option DedicatedServer × Option ReadError
checked_address ds = if is_empty ds.addr then (some ds, some empty_address) else (some ds, none)

unfoldable pub dedicated_result : Result DedicatedServer → Option DedicatedServer × Option ReadError
dedicated_result (ok ds) = checked_address ds
dedicated_result (err e) = (none, some e)

unfoldable pub parse_dedicated_server : Bytes → Option DedicatedServer × Option ReadError
parse_dedicated_server body = dedicated_result (dedicated_fields (new_bit_reader body)).0

unfoldable pub endpoint : Field → Field → M Endpoint
endpoint ip_field port_field = do
  ip ← at ip_field cstring
  p ← at port_field uint16
  return (record { ip = ip; port = p })

-- What the loop over the shards leaves: those that were read, the error that stopped it, if any,
-- and the reader.
pub record ShardsRead : Type 0 where
  pub shards : List Endpoint
  pub error : Option ReadError
  pub reader : BitReader

-- `for i := 0; i < int(count); i++`, by the rounds that are left.
unfoldable pub shards_loop : ℕ → ℕ → List Endpoint → BitReader → ShardsRead
shards_loop zero i out r = record { shards = out; error = none; reader = r }
shards_loop (suc left) i out r =
    let (a, r') = endpoint (shard_address i) (shard_port i) r in
    elim a [
      | ok e ↦ shards_loop left (i + 1) (out ++ e ∷ []) r'
      | err x ↦ record { shards = out; error = some x; reader = r' }
    ]

unfoldable pub chat_result : Result Endpoint → Option Endpoint × Option ReadError
chat_result (ok e) = (some e, none)
chat_result (err x) = (none, some x)

-- From `hasChat, err := r.Bool()` on; a missing flag is no error, a broken chat endpoint is.
unfoldable pub chat_part : Result Bool × BitReader → Option Endpoint × Option ReadError
chat_part (err _, r) = (none, none)
chat_part (ok false, r) = (none, none)
chat_part (ok true, r) = chat_result (endpoint chat_address chat_port r).0

unfoldable pub with_chat :
    Option ReadError → List Endpoint → BitReader → Option AssignedShard × Option ReadError
with_chat (some x) shards r = (some (record { shards = shards; chat = none }), some x)
with_chat none shards r =
    let (chat, e) = chat_part (bool r) in (some (record { shards = shards; chat = chat }), e)

unfoldable pub shard_header : M ℕ
shard_header = do _ ← at leading_flag bool; at shard_count uint8

unfoldable pub shards_result : Result ℕ × BitReader → Option AssignedShard × Option ReadError
shards_result (err e, r) = (none, some e)
shards_result (ok n, r) =
    let read = shards_loop n 0 [] r in with_chat read.error read.shards read.reader

unfoldable pub parse_assigned_shard : Bytes → Option AssignedShard × Option ReadError
parse_assigned_shard body = shards_result (shard_header (new_bit_reader body))
