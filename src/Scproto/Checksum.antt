-- ===== src/Scproto/Checksum.antt =====
-- sc-capture/pkg/scproto/checksum.go. A uint32 is a native number below 2 ^ 32, and every
-- multiplication and left shift wraps; `^` and `|` are the native bit operations.
pub mod Laws
use star_konflict.Base.{
  ℕ, ◌+◌, ◌*◌, ◌/◌, ◌%◌, ◌^◌, bit_or, bit_xor, List, [], ◌∷◌, ◌++◌, Bytes, u16_mod, u32_mod,
}

abbrev pub header_size : ℕ
header_size = 12

abbrev pub checksum_seed : ℕ
checksum_seed = 0x1337533d

abbrev pub murmur_m : ℕ
murmur_m = 0x5bd1e995

-- `uint32(a) * b`, `x << k` and `x >> k`.
unfoldable pub mul32 : ℕ → ℕ → ℕ
mul32 a b = a * b % u32_mod

unfoldable pub shl32 : ℕ → ℕ → ℕ
shl32 x k = x * 2 ^ k % u32_mod

unfoldable pub shr32 : ℕ → ℕ → ℕ
shr32 x k = x / 2 ^ k

-- `byte(v), byte(v >> 8)`.
unfoldable pub put_uint16_le : ℕ → Bytes
put_uint16_le v = v % 256 ∷ v / 256 % 256 ∷ []

unfoldable pub put_uint32_le : ℕ → Bytes
put_uint32_le v = v % 256 ∷ v / 256 % 256 ∷ v / 65536 % 256 ∷ v / 16777216 % 256 ∷ []

-- The twelve bytes that are hashed in front of the body; the checksum's own place holds zeros.
unfoldable pub hashed_header : ℕ → ℕ → ℕ → ℕ → Bytes
unfolding put_uint16_le put_uint32_le
hashed_header body_len seq echo_seq cmd_type =
    put_uint32_le body_len
    ++ put_uint16_le seq
    ++ put_uint16_le echo_seq
    ++ put_uint16_le cmd_type
    ++ 0 ∷ 0 ∷ []

-- `uint32(data[i]) | uint32(data[i+1])<<8 | uint32(data[i+2])<<16 | uint32(data[i+3])<<24`.
unfoldable pub word_le : ℕ → ℕ → ℕ → ℕ → ℕ
unfolding shl32
word_le b0 b1 b2 b3 = bit_or (bit_or (bit_or b0 (shl32 b1 8)) (shl32 b2 16)) (shl32 b3 24)

-- One round of the inner loop: the new `h` from the word `k`.
unfoldable pub mix_word : ℕ → ℕ → ℕ
unfolding mul32 shr32
mix_word h k =
    let k1 = mul32 k murmur_m in
    let k2 = bit_xor k1 (shr32 k1 24) in bit_xor (mul32 h murmur_m) (mul32 k2 murmur_m)

-- The switch on what is left, each case falling through to the next.
unfoldable pub mix_one : ℕ → ℕ → ℕ
unfolding mul32
mix_one h b0 = mul32 (bit_xor h b0) murmur_m

unfoldable pub mix_tail : ℕ → Bytes → ℕ
unfolding mix_one shl32
mix_tail h (b0 ∷ b1 ∷ b2 ∷ []) = mix_one (bit_xor (bit_xor h (shl32 b2 16)) (shl32 b1 8)) b0
mix_tail h (b0 ∷ b1 ∷ []) = mix_one (bit_xor h (shl32 b1 8)) b0
mix_tail h (b0 ∷ []) = mix_one h b0
mix_tail h _ = h

-- The body of `for _, data := range`: whole words first, then the tail.
unfoldable pub mix : ℕ → Bytes → ℕ
unfolding mix_word word_le mix_tail
mix h (b0 ∷ b1 ∷ b2 ∷ b3 ∷ rest) = mix (mix_word h (word_le b0 b1 b2 b3)) rest
mix h tail = mix_tail h tail

-- The last three lines and the conversion to uint16.
unfoldable pub finish : ℕ → ℕ
unfolding mul32 shr32
finish h =
    let h1 = bit_xor h (shr32 h 13) in
    let h2 = mul32 h1 murmur_m in bit_xor h2 (shr32 h2 15) % u16_mod

unfoldable pub checksum : ℕ → ℕ → ℕ → ℕ → Bytes → ℕ
unfolding mix finish hashed_header
checksum body_len seq echo_seq cmd_type body =
    let h = bit_xor header_size checksum_seed in
    finish (mix (mix h (hashed_header body_len seq echo_seq cmd_type)) body)
