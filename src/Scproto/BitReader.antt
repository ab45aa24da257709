-- ===== src/Scproto/BitReader.antt =====
-- sc-capture/pkg/scproto/bitreader.go. A method takes the reader and returns its result with the
-- reader as it leaves it, errors included. `& 7` and `& 1` are remainders, `>> k` a quotient.
pub mod Bits
pub mod Reads
pub mod Exact
pub mod Inside
use star_konflict.Base.{
  ℕ, zero, suc, ◌+◌, ◌-◌, ◌*◌, ◌/◌, ◌%◌, ◌^◌, bit_or, Bool, true, false, List, [], ◌∷◌, ◌++◌, Bytes,
  ltb, ◌==◌, if◌then◌else◌, length, get_elem?, Option, none, some, u8_mod, u16_mod, u32_mod,
  u64_mod,
}
use star_konflict.Base.Int.{ℤ, signed32}

pub record BitReader : Type 0 where
  pub buf : Bytes
  pub bit : ℕ

-- Which value a parser was reading; shards are counted from 0.
pub data Field : Type 0 where
  addr port session_id zone_id leading_flag shard_count chat_address chat_port : Field
  shard_address shard_port : ℕ → Field

-- `in_field` is the wrapping by `fmt.Errorf("…: %w", err)`.
pub data ReadError : Type 0 where
  eof bad_width unterminated empty_address : ReadError
  in_field : Field → ReadError → ReadError

pub data Result {ℓ} (A : Type ℓ) : Type ℓ where
  ok : A → Result A
  err : ReadError → Result A

abbrev pub M : Type 0 → Type 0
M A = BitReader → Result A × BitReader

infixl 5 ◌>>=◌
unfoldable pub ◌>>=◌ : {A B : Type 0} → M A → (A → M B) → M B
◌>>=◌ m f r = let (a, r') = m r in elim a [ ok x ↦ f x r' | err e ↦ (err e, r') ]

unfoldable pub return : {A : Type 0} → A → M A
return a r = (ok a, r)

unfoldable pub fail : {A : Type 0} → ReadError → M A
fail e r = (err e, r)

unfoldable pub new_bit_reader : Bytes → BitReader
new_bit_reader b = record { buf = b; bit = 0 }

unfoldable pub bit_offset : BitReader → ℕ
bit_offset r = r.bit

unfoldable pub remaining : BitReader → ℕ
remaining r = length r.buf * 8 - r.bit

-- `none` of the index is `idx >= len(r.buf)`.
unfoldable pub read_bit : M ℕ
read_bit r =
    let off = r.bit % 8 in
    elim (get_elem? r.buf (r.bit / 8)) [
      | none ↦ (err eof, r)
      | some byte ↦ (ok (byte / 2 ^ (7 - off) % 2), record r { bit = r.bit + 1 })
    ]

-- `for i := 0; i < n; i++`, by the rounds that are left; `v` is a uint64.
unfoldable pub uint_loop : ℕ → ℕ → M ℕ
uint_loop zero v = return v
uint_loop (suc k) v = do b ← read_bit; uint_loop k (bit_or (v * 2 % u64_mod) b)

unfoldable pub uint : ℕ → M ℕ
uint n = if ltb 64 n then fail bad_width else uint_loop n 0

unfoldable pub bool : M Bool
bool = do v ← uint 1; return (v == 1)

unfoldable pub uint8 : M ℕ
uint8 = do v ← uint 8; return (v % u8_mod)

unfoldable pub uint16 : M ℕ
uint16 = do v ← uint 16; return (v % u16_mod)

unfoldable pub uint32 : M ℕ
uint32 = do v ← uint 32; return (v % u32_mod)

unfoldable pub uint64 : M ℕ
uint64 = uint 64

unfoldable pub int32 : M ℤ
int32 = do v ← uint 32; return (signed32 (v % u32_mod))

abbrev pub max_string_length : ℕ
max_string_length = 4096

-- `for len(out) < MaxStringLength`, by the bytes that still fit.
unfoldable pub cstring_loop : ℕ → Bytes → M Bytes
cstring_loop zero out = fail unterminated
cstring_loop (suc k) out = do
  c ← uint8
  elim (c == 0) [ true ↦ return out | false ↦ cstring_loop k (out ++ c ∷ []) ]

unfoldable pub cstring : M Bytes
cstring = cstring_loop max_string_length []
