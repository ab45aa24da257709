-- ===== src/Scproto/BitReader/Bits.antt =====
-- The bits of a byte string, most significant first, and `readBit` against them.
use star_konflict.Base.{
  ℕ, zero, suc, ◌+◌, ◌-◌, ◌/◌, ◌%◌, ◌^◌, ◌<◌, List, [], ◌∷◌, ◌++◌, ◌≡◌, refl, sym, ap, ◌∙◌, Bytes,
  get_elem?, drop, Option, none, some, All, arith, u8_mod, inl, inr, Option-cases, drop-some,
  drop-none,
}
use star_konflict.Scproto.BitReader.{BitReader, ok, err, eof, read_bit}

-- The `n` low bits of a number, the highest first.
abbrev pub uint_bits : ℕ → ℕ → List ℕ
uint_bits zero v = []
uint_bits (suc k) v = v / 2 ^ k ∷ uint_bits k (v % 2 ^ k)

abbrev pub bits : Bytes → List ℕ
bits [] = []
bits (x ∷ xs) = uint_bits 8 x ++ bits xs

abbrev pub AreBytes : Bytes → Type 0
AreBytes = All (λ x. x < u8_mod)

abbrev bit_of : Option ℕ → ℕ → Option ℕ
bit_of none off = none
bit_of (some byte) off = some (byte / 2 ^ (7 - off) % 2)

-- The bit that `readBit` finds at an offset.
abbrev bit_at : Bytes → ℕ → Option ℕ
bit_at xs i = bit_of (get_elem? xs (i / 8)) (i % 8)

bit_at-bits : (xs : Bytes) (i : ℕ) → AreBytes xs → get_elem? (bits xs) i ≡ bit_at xs i
bit_at-bits [] i h = refl
bit_at-bits (x ∷ xs) zero h = ap some (omega arith)
bit_at-bits (x ∷ xs) (suc zero) h = ap some (omega arith)
bit_at-bits (x ∷ xs) (suc (suc zero)) h = ap some (omega arith)
bit_at-bits (x ∷ xs) (suc (suc (suc zero))) h = ap some (omega arith)
bit_at-bits (x ∷ xs) (suc (suc (suc (suc zero)))) h = ap some (omega arith)
bit_at-bits (x ∷ xs) (suc (suc (suc (suc (suc zero))))) h = ap some (omega arith)
bit_at-bits (x ∷ xs) (suc (suc (suc (suc (suc (suc zero)))))) h = ap some (omega arith)
bit_at-bits (x ∷ xs) (suc (suc (suc (suc (suc (suc (suc zero))))))) h = ap some (omega arith)
bit_at-bits (x ∷ xs) (suc (suc (suc (suc (suc (suc (suc (suc i)))))))) h =
    let byte : suc (suc (suc (suc (suc (suc (suc (suc i))))))) / 8 ≡ suc (i / 8) = omega arith in
    let off : suc (suc (suc (suc (suc (suc (suc (suc i))))))) % 8 ≡ i % 8 = omega arith in
    rw (byte, off) (bit_at-bits xs i h.1)

-- The bits that are still to be read.
abbrev pub ahead : BitReader → List ℕ
ahead r = drop r.bit (bits r.buf)

abbrev pub advance : BitReader → ℕ → BitReader
advance r n = record r { bit = r.bit + n }

pub read_bit-cons :
    (r : BitReader) (b : ℕ) (rest : List ℕ)
    → AreBytes r.buf
    → ahead r ≡ b ∷ rest
    → read_bit r ≡ (ok b, advance r 1)
unfolding read_bit
read_bit-cons r b rest h e =
    let here = sym (bit_at-bits r.buf r.bit h) ∙ drop-some (bits r.buf) r.bit b rest e in
    elim (Option-cases (get_elem? r.buf (r.bit / 8))) [
      | inl gone ↦ cc (rw gone at here)
      | inr (x, found) ↦ rw (found, read_bit) (cc (rw found at here))
    ]

pub read_bit-nil : (r : BitReader) → AreBytes r.buf → ahead r ≡ [] → read_bit r ≡ (err eof, r)
unfolding read_bit
read_bit-nil r h e =
    let here = sym (bit_at-bits r.buf r.bit h) ∙ drop-none (bits r.buf) r.bit e in
    elim (Option-cases (get_elem? r.buf (r.bit / 8))) [
      | inl gone ↦ rw (gone, read_bit)
      | inr (x, found) ↦ cc (rw found at here)
    ]
