-- ===== src/Scproto/BitReader/Exact.antt =====
-- `Uint` and `CString` on a buffer whose next bits are known.
use star_konflict.Base.{
  ℕ, zero, suc, ◌+◌, ◌*◌, ◌%◌, ◌^◌, ◌≤◌, ◌<◌, List, [], ◌∷◌, ◌++◌, ◌≡◌, refl, ap, ◌∙◌, Bytes,
  length, arith, length-append, u64_mod,
}
use star_konflict.Scproto.BitReader.{BitReader, ok, uint, cstring, max_string_length}
use star_konflict.Scproto.BitReader.Bits.{uint_bits, AreBytes, ahead, advance}
use star_konflict.Scproto.BitReader.Reads.{Reads-uint, Reads-cstring, string_bits, IsText}

length-uint_bits : (n v : ℕ) → length (uint_bits n v) ≡ n
length-uint_bits zero v = refl
length-uint_bits (suc n) v = ap suc (length-uint_bits n (v % 2 ^ n))

length-string_bits : (cs : Bytes) → length (string_bits cs) ≡ 8 * (length cs + 1)
length-string_bits [] = refl
length-string_bits (c ∷ cs) = omega (
  arith,
  length-append (uint_bits 8 c) (string_bits cs),
  length-uint_bits 8 c,
  length-string_bits cs,
)

-- If the next n bits of the buffer, 64 at most, are the number v, high bit first, then `Uint(n)`
-- returns v without an error and moves n bits on.
pub uint_reads :
    (n v : ℕ) (r : BitReader) (rest : List ℕ)
    → n ≤ 64
    → v < 2 ^ n
    → 2 ^ n ≤ u64_mod
    → AreBytes r.buf
    → ahead r ≡ uint_bits n v ++ rest
    → uint n r ≡ (ok v, advance r n)
uint_reads n v r rest narrow fits wide b e =
    (Reads-uint n v narrow fits wide).run r rest b e
    ∙ ap (λ k. (ok v, advance r k)) (length-uint_bits n v)

-- If the next bits of the buffer are those of a text of fewer bytes than the limit, none of them
-- zero, behind which a zero byte stands, then `CString` returns the text without an error and
-- moves behind the zero byte.
pub cstring_reads :
    (cs : Bytes) (r : BitReader) (rest : List ℕ)
    → IsText cs
    → length cs < max_string_length
    → AreBytes r.buf
    → ahead r ≡ string_bits cs ++ rest
    → cstring r ≡ (ok cs, advance r (8 * (length cs + 1)))
cstring_reads cs r rest t short b e =
    (Reads-cstring cs t short).run r rest b e
    ∙ ap (λ k. (ok cs, advance r k)) (length-string_bits cs)
