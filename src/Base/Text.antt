-- ===== src/Base/Text.antt =====
-- Go strings and byte slices as lists of bytes: equality, order and decimal printing.
use Prim.Native.Nat.{ℕ}
use Prim.Native.Char.{code}
use Prim.Native.String.{String}
use mathlib.Core.Path.{◌≡◌, refl}
use mathlib.Core.Logic.{◌↔◌}
use mathlib.Core.Bool.{Bool, true, false, ◌&&◌}
use mathlib.Core.List.{List, [], ◌∷◌}
use native.Mathlib.Omega.{arith}
use star_konflict.Base.Tests.{ltb, ◌==◌, if◌then◌else◌}

abbrev pub Bytes : Type 0
Bytes = List ℕ

-- The bytes of an ASCII literal. It stays shut, so that proofs do not spell literals out.
unfoldable pub text : String → Bytes
text String.[] = []
text (String.◌∷◌ c s) = code c ∷ text s

-- `a == b` on strings.
unfoldable pub same : Bytes → Bytes → Bool
same [] [] = true
same [] (y ∷ ys) = false
same (x ∷ xs) [] = false
same (x ∷ xs) (y ∷ ys) = x == y && same xs ys

pub same→eq : (a b : Bytes) → same a b ≡ true → a ≡ b
unfolding same
same→eq [] [] h = refl
same→eq [] (y ∷ ys) h = cc
same→eq (x ∷ xs) [] h = cc
same→eq (x ∷ xs) (y ∷ ys) h = ground (arith, same→eq xs ys)

pub same_refl : (a : Bytes) → same a a ≡ true
unfolding same
same_refl [] = refl
same_refl (x ∷ xs) = ground (arith, same_refl xs)

pub same_iff : (a b : Bytes) → (same a b ≡ true) ↔ (a ≡ b)
same_iff a b = (same→eq a b, λ e. rw e (same_refl b))

-- `a < b` on strings: byte by byte, a proper prefix first.
unfoldable pub before : Bytes → Bytes → Bool
before [] [] = false
before [] (y ∷ ys) = true
before (x ∷ xs) [] = false
before (x ∷ xs) (y ∷ ys) = if ltb x y then true else if x == y then before xs ys else false

pub before_asym : (a b : Bytes) → before a b ≡ true → before b a ≡ false
unfolding before
before_asym [] [] h = refl
before_asym [] (y ∷ ys) h = refl
before_asym (x ∷ xs) [] h = cc
before_asym (x ∷ xs) (y ∷ ys) h = ground (arith, before_asym xs ys)

pub before_irrefl : (a : Bytes) → before a a ≡ false
unfolding before
before_irrefl [] = refl
before_irrefl (x ∷ xs) = ground (arith, before_irrefl xs)

pub before_total : (a b : Bytes) → before a b ≡ false → before b a ≡ false → a ≡ b
unfolding before
before_total [] [] h k = refl
before_total [] (y ∷ ys) h k = cc
before_total (x ∷ xs) [] h k = cc
before_total (x ∷ xs) (y ∷ ys) h k = ground (arith, before_total xs ys)

pub before_trans : (a b c : Bytes) → before b a ≡ false → before c b ≡ false → before c a ≡ false
unfolding before
before_trans [] b [] h k = refl
before_trans [] [] (z ∷ c) h k = k
before_trans [] (y ∷ b) (z ∷ c) h k = refl
before_trans (x ∷ a) [] c h k = cc
before_trans (x ∷ a) (y ∷ b) [] h k = cc
before_trans (x ∷ a) (y ∷ b) (z ∷ c) h k = ground (arith, before_trans a b c)
