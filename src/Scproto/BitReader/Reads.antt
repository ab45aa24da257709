-- ===== src/Scproto/BitReader/Reads.antt =====
-- The readers against what a bit writer would have written, at any bit offset.
use star_konflict.Base.{
  ℕ, zero, suc, ◌+◌, ◌*◌, ◌/◌, ◌%◌, ◌^◌, ◌≤◌, ◌<◌, bit_or, Bool, true, false, List, [], ◌∷◌, ◌++◌,
  ◌≡◌, refl, sym, ap, ◌∙◌, Bytes, length, drop, arith, append_assoc, append-nil, length-append,
  drop-add, drop-length, ltb-false, ◌==◌, u8_mod, u16_mod, u32_mod, u64_mod, All,
}
use star_konflict.Base.Bits.{bit_or_shifted}
use star_konflict.Base.Int.{signed32}
use mathlib.Core.Path.{subst₂}
use native.Mathlib.Nat.{pow-suc, mul-le-mul_right, div-add-mod, mod-lt, one-le-pow}
use star_konflict.Scproto.BitReader.{
  BitReader, Result, ok, err, M, ◌>>=◌, return, read_bit, uint_loop, uint, bool, uint8, uint16,
  uint64, int32, cstring_loop, cstring, max_string_length,
}
use star_konflict.Scproto.BitReader.Bits.{uint_bits, bits, AreBytes, ahead, advance, read_bit-cons}

-- `m` reads exactly the bits `bs`, wherever they stand and whatever follows, and returns `a`.
pub record Reads {A : Type 0} (m : M A) (bs : List ℕ) (a : A) : Type 0 where
  pub run :
      (r : BitReader) (rest : List ℕ)
      → AreBytes r.buf
      → ahead r ≡ bs ++ rest
      → m r ≡ (ok a, advance r (length bs))

pub ahead-advance :
    (r : BitReader) (bs rest : List ℕ) → ahead r ≡ bs ++ rest → ahead (advance r (length bs)) ≡ rest
ahead-advance r bs rest h =
    drop-add r.bit (length bs) (bits r.buf) ∙ ap (drop (length bs)) h ∙ drop-length bs rest

advance-advance : (r : BitReader) (n k : ℕ) → advance (advance r n) k ≡ advance r (n + k)
advance-advance r n k = ap (λ b. record r { bit = b }) (omega arith)

pub Reads-return : {A : Type 0} (a : A) → Reads (return a) [] a
unfolding return
Reads-return a = record { run = λ r rest h e. ap (λ b. (ok a, record r { bit = b })) (omega arith) }

bind_ok :
    {A B : Type 0} (m : M A) (f : A → M B) (r s : BitReader) {a : A}
    → m r ≡ (ok a, s)
    → (m >>= f) r ≡ f a s
unfolding ◌>>=◌
bind_ok {A} {B} m f r s e = ap on_result e
  where
    on_result : Result A × BitReader → Result B × BitReader
    on_result o = elim o.0 [ ok x ↦ f x o.1 | err y ↦ (err y, o.1) ]

pub Reads->>= :
    {A B : Type 0} {m : M A} (f : A → M B) {bs cs : List ℕ} {a : A} {b : B}
    → Reads m bs a
    → Reads (f a) cs b
    → Reads (m >>= f) (bs ++ cs) b
Reads->>= {m = m} f {bs = bs} {cs = cs} {a = a} {b = b} p q = record {
  run = λ r rest h e.
      let input = e ∙ append_assoc bs cs rest in
      bind_ok m f r _ (p.run r (cs ++ rest) h input)
      ∙ q.run (advance r (length bs)) rest h (ahead-advance r bs (cs ++ rest) input)
      ∙ ap (λ n. (ok b, record r { bit = n })) (omega (arith, length-append bs cs));
}

-- The same from bits and a value that are equal to others.
pub Reads-eq :
    {A : Type 0} {m : M A} {bs cs : List ℕ} {a b : A}
    → bs ≡ cs
    → a ≡ b
    → Reads m bs a
    → Reads m cs b
Reads-eq {m = m} e d p = subst₂ (λ bs a. Reads m bs a) e d p

pub Reads-read_bit : (b : ℕ) → Reads read_bit (b ∷ []) b
Reads-read_bit b = record { run = λ r rest h e. read_bit-cons r b rest h e }

-- One round, with `t` for the weight of the bits that are left.
module _ (t acc v : ℕ) (pos : 0 < t) (small : v < 2 * t) where
  first_bit : v / t < 2
  first_bit = grind arith

  regroup : (acc * 2 + v / t) * t + v % t ≡ acc * (2 * t) + v
  regroup = omega (arith, div-add-mod v t)

  still_fits : acc * (2 * t) + 2 * t ≤ u64_mod → (acc * 2 + v / t) * t + t ≤ u64_mod
  still_fits h =
      let part : v / t * t ≤ 1 * t = mul-le-mul_right t (omega (arith, first_bit)) in
      omega (arith, h, part)

  no_wrap : acc * (2 * t) + 2 * t ≤ u64_mod → acc * 2 < u64_mod
  no_wrap h = grind arith

-- `n` rounds shift in the `n` bits of `v`, and no bit is shifted out of the uint64.
Reads-uint_loop :
    (k acc v : ℕ)
    → v < 2 ^ k
    → acc * 2 ^ k + 2 ^ k ≤ u64_mod
    → Reads (uint_loop k acc) (uint_bits k v) (acc * 2 ^ k + v)
unfolding uint_loop
Reads-uint_loop zero acc v small fits = Reads-eq refl (omega arith) (Reads-return acc)
Reads-uint_loop (suc k) acc v small fits =
    let t = 2 ^ k in
    let bit = v / t in
    let pos : 0 < t = one-le-pow k 2 (omega arith) in
    let double : 2 ^ suc k ≡ 2 * t = omega (arith, pow-suc 2 k) in
    let small' : v < 2 * t = omega (arith, double) in
    let fits' : acc * (2 * t) + 2 * t ≤ u64_mod = rw (← double) fits in
    let wraps = no_wrap t acc v pos small' fits' in
    let kept : acc * 2 % u64_mod ≡ acc * 2 = omega arith in
    let shifted : bit_or (acc * 2 % u64_mod) bit ≡ acc * 2 + bit =
      rw kept (bit_or_shifted acc bit (first_bit t acc v pos small')) in
    let value : (acc * 2 + bit) * t + v % t ≡ acc * 2 ^ suc k + v =
      rw double (regroup t acc v pos small') in
    Reads->>= (λ b. uint_loop k (bit_or (acc * 2 % u64_mod) b)) (Reads-read_bit bit)
      (rw shifted (
        Reads-eq refl value (
          Reads-uint_loop k (acc * 2 + bit) (v % t) (mod-lt v pos)
            (still_fits t acc v pos small' fits'))))

-- `Uint` of at most 64 bits is the number whose bits stand next.
pub Reads-uint : (n v : ℕ) → n ≤ 64 → v < 2 ^ n → 2 ^ n ≤ u64_mod → Reads (uint n) (uint_bits n v) v
unfolding uint
Reads-uint n v narrow small fits =
    rw (ltb-false 64 n narrow)
      (Reads-eq refl (omega arith) (Reads-uint_loop n 0 v small (omega arith)))

-- A reader that converts what `Uint` returned.
converted :
    {A : Type 0} (f : ℕ → A) (n v : ℕ) {a : A}
    → Reads (uint n) (uint_bits n v) v
    → f v ≡ a
    → Reads (uint n >>= λ x. return (f x)) (uint_bits n v) a
converted f n v {a = a} p e =
    Reads-eq (append-nil _) refl (Reads->>= (λ x. return (f x)) p (rw e (Reads-return a)))

pub Reads-uint8 : (v : ℕ) → v < u8_mod → Reads uint8 (uint_bits 8 v) v
unfolding uint8
Reads-uint8 v h =
    converted (λ x. x % u8_mod) 8 v (Reads-uint 8 v (omega arith) h (omega arith)) (omega arith)

pub Reads-uint16 : (v : ℕ) → v < u16_mod → Reads uint16 (uint_bits 16 v) v
unfolding uint16
Reads-uint16 v h =
    converted (λ x. x % u16_mod) 16 v (Reads-uint 16 v (omega arith) h (omega arith)) (omega arith)

pub Reads-uint64 : (v : ℕ) → v < u64_mod → Reads uint64 (uint_bits 64 v) v
unfolding uint64
Reads-uint64 v h = Reads-uint 64 v (omega arith) h (omega arith)

pub Reads-int32 : (v : ℕ) → v < u32_mod → Reads int32 (uint_bits 32 v) (signed32 v)
unfolding int32
Reads-int32 v h =
    converted (λ x. signed32 (x % u32_mod)) 32 v (Reads-uint 32 v (omega arith) h (omega arith))
      (ap signed32 (omega arith))

abbrev pub flag_bit : Bool → ℕ
flag_bit true = 1
flag_bit false = 0

pub Reads-bool : (b : Bool) → Reads bool (flag_bit b ∷ []) b
unfolding bool
Reads-bool true =
    converted (λ x. x == 1) 1 1 (Reads-uint 1 1 (omega arith) (omega arith) (omega arith)) refl
Reads-bool false =
    converted (λ x. x == 1) 1 0 (Reads-uint 1 0 (omega arith) (omega arith) (omega arith)) refl

-- A string on the wire: its bytes, none of them zero, and a zero byte.
abbrev pub string_bits : Bytes → List ℕ
string_bits [] = uint_bits 8 0
string_bits (c ∷ cs) = uint_bits 8 c ++ string_bits cs

abbrev pub IsText : Bytes → Type 0
IsText = All (λ c. (0 < c) × (c < u8_mod))

nonzero : (c : ℕ) → 0 < c → (c == 0) ≡ false
nonzero c h = ground arith

Reads-cstring_loop :
    (k : ℕ) (out cs : Bytes)
    → IsText cs
    → length cs < k
    → Reads (cstring_loop k out) (string_bits cs) (out ++ cs)
unfolding cstring_loop
Reads-cstring_loop zero out cs t h = absurd (omega arith)
Reads-cstring_loop (suc k) out [] t h = Reads-eq (append-nil _) refl (
    Reads->>= _ (Reads-uint8 0 (omega arith))
      (Reads-eq refl (sym (append-nil out)) (Reads-return out)))
Reads-cstring_loop (suc k) out (c ∷ cs) t h =
    let more : (c == 0) ≡ false = nonzero c t.0.0 in
    let later =
      Reads-eq refl (append_assoc out (c ∷ []) cs)
        (Reads-cstring_loop k (out ++ c ∷ []) cs t.1 (omega arith)) in
    Reads->>= _ (Reads-uint8 c t.0.1) (rw more later)

pub Reads-cstring :
    (cs : Bytes) → IsText cs → length cs < max_string_length → Reads cstring (string_bits cs) cs
unfolding cstring
Reads-cstring cs t h = Reads-cstring_loop max_string_length [] cs t h
