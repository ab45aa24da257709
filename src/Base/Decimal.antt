-- ===== src/Base/Decimal.antt =====
-- Decimal printing, as `itoa` of sc-capture/pkg/scproto/tables.go and the `%d` verb do it.
use Prim.Native.Nat.{ℕ, zero, suc, ◌+◌, ◌-◌, ◌*◌, ◌/◌, ◌%◌, ◌≤◌, ◌<◌}
use mathlib.Core.Path.{◌≡◌, refl, sym, ap, ◌∙◌}
use mathlib.Core.Bool.{false}
use mathlib.Core.Logic.{◌≢◌}
use mathlib.Core.List.{[], ◌∷◌, ◌++◌}
use native.Mathlib.Omega.{arith}
use star_konflict.Base.Tests.{◌==◌, if◌then◌else◌, if_false}
use star_konflict.Base.Lists.{All, length, replicate}
use star_konflict.Base.Text.{Bytes, text}
use star_konflict.Base.Int.{ℤ, pos, negsuc}

-- `for n > 0 { b = append([]byte{byte('0' + n%10)}, b...); n /= 10 }`; `n` rounds are enough.
unfoldable pub digits_loop : ℕ → ℕ → Bytes → Bytes
digits_loop zero n b = b
digits_loop (suc fuel) n b =
    let rest = digits_loop fuel (n / 10) ((b'0' + n % 10) ∷ b) in if n == 0 then b else rest

unfoldable pub decimal : ℕ → Bytes
decimal n = if n == 0 then text "0" else digits_loop n n []

unfoldable pub itoa : ℤ → Bytes
itoa (pos n) = decimal n
itoa (negsuc n) = b'-' ∷ digits_loop (suc n) (suc n) []

-- The number that decimal digits stand for, read on from `acc`.
abbrev pub value : ℕ → Bytes → ℕ
value acc [] = acc
value acc (d ∷ ds) = value (acc * 10 + (d - b'0')) ds

positive : (n : ℕ) → (suc n == 0) ≡ false
positive n = ground arith

digits_loop-suc :
    (fuel n : ℕ) (b : Bytes)
    → digits_loop (suc fuel) (suc n) b ≡ digits_loop fuel (suc n / 10) ((b'0' + suc n % 10) ∷ b)
unfolding digits_loop
digits_loop-suc fuel n b = rw (positive n)

decimal-suc : (n : ℕ) → decimal (suc n) ≡ digits_loop (suc n) (suc n) []
unfolding decimal
decimal-suc n = if_false _ _ (positive n)

value-digits_loop : (fuel n : ℕ) (b : Bytes) → n ≤ fuel → value 0 (digits_loop fuel n b) ≡ value n b
unfolding digits_loop
value-digits_loop zero zero b h = refl
value-digits_loop zero (suc n) b h = elim h [ ]
value-digits_loop (suc fuel) zero b h = refl
value-digits_loop (suc fuel) (suc n) b h =
    ap (value 0) (digits_loop-suc fuel n b)
    ∙ value-digits_loop fuel (suc n / 10) _ (omega arith)
    ∙ ap (λ v. value v b) (omega arith)

-- Printing loses nothing.
pub value-decimal : (n : ℕ) → value 0 (decimal n) ≡ n
unfolding decimal text
value-decimal zero = refl
value-decimal (suc n) = rw (decimal-suc n) (value-digits_loop (suc n) (suc n) [] (omega arith))

pub decimal-injective : (n k : ℕ) → decimal n ≡ decimal k → n ≡ k
decimal-injective n k h = sym (value-decimal n) ∙ ap (value 0) h ∙ value-decimal k

abbrev pub IsDigit : ℕ → Type 0
IsDigit c = (b'0' ≤ c) × (c ≤ b'9')

digits_loop-IsDigit : (fuel n : ℕ) (b : Bytes) → All IsDigit b → All IsDigit (digits_loop fuel n b)
unfolding digits_loop
digits_loop-IsDigit zero n b h = h
digits_loop-IsDigit (suc fuel) zero b h = h
digits_loop-IsDigit (suc fuel) (suc n) b h =
    rw (digits_loop-suc fuel n b) (digits_loop-IsDigit fuel (suc n / 10) _ (omega arith, h))

-- Every byte printed is a digit.
pub decimal-IsDigit : (n : ℕ) → All IsDigit (decimal n)
unfolding decimal text
decimal-IsDigit zero = omega arith
decimal-IsDigit (suc n) = rw (decimal-suc n) (digits_loop-IsDigit (suc n) (suc n) [] tt)

-- A separator that the last part does not hold splits a joined text in one way only.
abbrev pub Without : ℕ → Bytes → Type 0
Without c = All (λ x. x ≢ c)

Without-middle : (c : ℕ) (d xs ys : Bytes) → Without c d → d ≢ xs ++ (c ∷ ys)
Without-middle c [] [] ys h e = cc
Without-middle c [] (x ∷ xs) ys h e = cc
Without-middle c (z ∷ d) [] ys h e = h.0 (cc)
Without-middle c (z ∷ d) (x ∷ xs) ys h e = Without-middle c d xs ys h.1 (cc)

pub joined_once :
    (c : ℕ) (k j d f : Bytes)
    → Without c d
    → Without c f
    → k ++ (c ∷ d) ≡ j ++ (c ∷ f)
    → (k ≡ j) × (d ≡ f)
joined_once c [] [] d f hd hf e = (refl, cc)
joined_once c [] (y ∷ j) d f hd hf e = absurd (Without-middle c d j f hd (cc))
joined_once c (x ∷ k) [] d f hd hf e = absurd (Without-middle c f k d hf (cc))
joined_once c (x ∷ k) (y ∷ j) d f hd hf e =
    let (ks, ds) = joined_once c k j d f hd hf (cc) in let head : x ≡ y = cc in (rw (head, ks), ds)

pub digits-Without : (c : ℕ) (d : Bytes) → (IsDigit c → ⊥) → All IsDigit d → Without c d
digits-Without c [] n h = tt
digits-Without c (x ∷ d) n h = (λ e. n (rw e at h.0), digits-Without c d n h.1)

pub decimal-Without : (c n : ℕ) → (IsDigit c → ⊥) → Without c (decimal n)
decimal-Without c n h = digits-Without c (decimal n) h (decimal-IsDigit n)

-- `Without` of a concatenation.
pub Without-append : (c : ℕ) (xs ys : Bytes) → Without c xs → Without c ys → Without c (xs ++ ys)
Without-append c [] ys h k = k
Without-append c (x ∷ xs) ys h k = (h.0, Without-append c xs ys h.1 k)

-- How many digits are printed.
abbrev tens : ℕ → ℕ
tens zero = 1
tens (suc k) = 10 * tens k

length-digits_loop :
    (fuel n k : ℕ) (b : Bytes) → n < tens k → length (digits_loop fuel n b) ≤ k + length b
unfolding digits_loop
length-digits_loop zero n k b h = omega arith
length-digits_loop (suc fuel) zero k b h = omega arith
length-digits_loop (suc fuel) (suc n) zero b h = absurd (omega arith)
length-digits_loop (suc fuel) (suc n) (suc k) b h = omega (
  arith,
  ap length (digits_loop-suc fuel n b),
  length-digits_loop fuel (suc n / 10) k ((b'0' + suc n % 10) ∷ b) (omega arith),
)

pub length-decimal : (n : ℕ) → n < 1000 → length (decimal n) ≤ 3
unfolding decimal text
length-decimal zero h = omega arith
length-decimal (suc n) h =
    omega (arith, ap length (decimal-suc n), length-digits_loop (suc n) (suc n) 3 [] h)

pub zeros-IsDigit : (k : ℕ) (d : Bytes) → All IsDigit d → All IsDigit (replicate k b'0' ++ d)
zeros-IsDigit zero d h = h
zeros-IsDigit (suc k) d h = (omega arith, zeros-IsDigit k d h)
