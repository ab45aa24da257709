-- ===== src/Base/Strings/Laws.antt =====
-- Laws of the string functions that the parsers are built from.
use Prim.Native.Nat.{ℕ, zero, suc, ◌<◌}
use mathlib.Core.Path.{◌≡◌, refl, sym, ap, ◌∙◌}
use mathlib.Core.Logic.{◌≢◌, ◌⊎◌, inl, inr}
use mathlib.Core.Bool.{true, false}
use mathlib.Core.Option.{some}
use mathlib.Core.List.{List, [], ◌∷◌, ◌++◌, append_assoc, append-nil}
use native.Mathlib.Omega.{arith}
use star_konflict.Base.Tests.{ltb, ◌==◌, Bool-cases, if_true}
use star_konflict.Base.Lists.{length, All, replicate}
use star_konflict.Base.Text.{Bytes, text}
use star_konflict.Base.Decimal.{
  value, decimal, IsDigit, Without, decimal-IsDigit, value-decimal, zeros-IsDigit,
}
use star_konflict.Base.Int.{pos}
use star_konflict.Base.Strings.{
  is_space, trim_left, keep_before, trim_right, trim_space, cut_at, cut, split_n, all_digits,
  magnitude, in_int64, atoi, max_token, drop_cr, last_line, lines_from, scanned,
}

-- A field without the separator is cut off whole.
pub cut-append : (c : ℕ) (a rest : Bytes) → Without c a → cut c (a ++ (c ∷ rest)) ≡ (a, some rest)
unfolding cut cut_at
cut-append c [] rest h = let e : (c == c) ≡ true = ground arith in rw e
cut-append c (x ∷ a) rest h =
    let e : (x == c) ≡ false = ground (arith, h.0) in rw (e, cut-append c a rest h.1)

pub split_n-append :
    (c n : ℕ) (a rest : Bytes)
    → Without c a
    → split_n c (suc (suc n)) (a ++ (c ∷ rest)) ≡ a ∷ split_n c (suc n) rest
unfolding split_n
split_n-append c n a rest h = rw (cut-append c a rest h, split_n) (rw (cut-append c a rest h))

-- A text that starts with no blank keeps its start.
pub trim_left-solid : (c : ℕ) (cs : Bytes) → is_space c ≡ false → trim_left (c ∷ cs) ≡ c ∷ cs
unfolding trim_left
trim_left-solid c cs h = rw h

keep_before-solid : (c : ℕ) (ds : Bytes) → is_space c ≡ false → keep_before c ds ≡ c ∷ ds
unfolding keep_before
keep_before-solid c [] h = rw h
keep_before-solid c (d ∷ ds) h = refl

keep_before-ne-nil : (c : ℕ) (ds : Bytes) → ds ≢ [] → keep_before c ds ≡ c ∷ ds
unfolding keep_before
keep_before-ne-nil c [] f = absurd (f refl)
keep_before-ne-nil c (d ∷ ds) f = refl

pub append-ne-nil : (xs ys : Bytes) → ys ≢ [] → xs ++ ys ≢ []
append-ne-nil [] ys f e = f e
append-ne-nil (x ∷ xs) ys f e = cc

-- What stands before the last text that is kept is kept too.
pub trim_right-append :
    (xs ys : Bytes) → trim_right ys ≢ [] → trim_right (xs ++ ys) ≡ xs ++ trim_right ys
unfolding trim_right
trim_right-append [] ys h = refl
trim_right-append (x ∷ xs) ys h =
    rw (trim_right-append xs ys h) (keep_before-ne-nil x _ (append-ne-nil xs _ h))

pub trim_right-solid :
    (xs : Bytes) (c : ℕ) (ys : Bytes)
    → is_space c ≡ false
    → trim_right (xs ++ (c ∷ ys)) ≡ xs ++ (c ∷ trim_right ys)
trim_right-solid xs c ys h =
    let e : trim_right (c ∷ ys) ≡ c ∷ trim_right ys =
      unfold trim_right in keep_before-solid c (trim_right ys) h in
    trim_right-append xs (c ∷ ys) (λ f. cc) ∙ rw e

digits-All : (d : Bytes) → All IsDigit d → all_digits d ≡ true
unfolding all_digits
digits-All [] h = refl
digits-All (c ∷ d) h = ground (arith, digits-All d h.1, h.0)

magnitude-digits : (d : Bytes) → All IsDigit d → d ≢ [] → magnitude d ≡ some (value 0 d)
unfolding magnitude
magnitude-digits [] h e = absurd (e refl)
magnitude-digits (c ∷ d) h e = if_true _ _ (digits-All (c ∷ d) h)

-- Digits are read as the number that they stand for.
pub atoi-digits :
    (d : Bytes)
    → All IsDigit d
    → d ≢ []
    → value 0 d < 9223372036854775808
    → atoi d ≡ some (pos (value 0 d))
unfolding atoi in_int64
atoi-digits [] h e b = absurd (e refl)
atoi-digits (c ∷ d) h e b =
    let m : (c == b'-') ≡ false = ground (arith, h.0) in
    let p : (c == b'+') ≡ false = ground (arith, h.0) in
    let v = magnitude-digits (c ∷ d) h e in
    let l : ltb (value 0 (c ∷ d)) 9223372036854775808 ≡ true = ground arith in rw (m, p, v, l)

value-zeros : (k : ℕ) (d : Bytes) → value 0 (replicate k b'0' ++ d) ≡ value 0 d
value-zeros zero d = refl
value-zeros (suc k) d = value-zeros k d

pub decimal-ne-nil : (n : ℕ) → decimal n ≢ []
unfolding decimal text
decimal-ne-nil zero e = cc
decimal-ne-nil (suc n) e = omega (arith, sym (value-decimal (suc n)) ∙ ap (value 0) e)

-- So is a number printed with zeros before it.
pub atoi-padded :
    (k n : ℕ) → n < 9223372036854775808 → atoi (replicate k b'0' ++ decimal n) ≡ some (pos n)
atoi-padded k n h =
    let v : value 0 (replicate k b'0' ++ decimal n) ≡ n = value-zeros k _ ∙ value-decimal n in
    atoi-digits _ (zeros-IsDigit k _ (decimal-IsDigit n)) (append-ne-nil _ _ (decimal-ne-nil n))
      (omega arith)
    ∙ ap (λ m. some (pos m)) v

-- The lines of a text that is cut behind a newline.
pub lines_from-append :
    (line xs ys : Bytes)
    → lines_from line (xs ++ (b'\n' ∷ ys))
      ≡ lines_from line (xs ++ (b'\n' ∷ [])) ++ lines_from [] ys
unfolding lines_from last_line
lines_from-append line [] ys = refl
lines_from-append line (x ∷ xs) ys = elim (Bool-cases (x == b'\n')) [
  | inl y ↦ rw (y, lines_from) (ap (λ t. line ∷ t) (lines_from-append [] xs ys))
  | inr u ↦ rw (u, lines_from) (lines_from-append (line ++ x ∷ []) xs ys)
]

-- A line with its newline is one line.
pub lines_from-line :
    (line l : Bytes) → Without b'\n' l → lines_from line (l ++ (b'\n' ∷ [])) ≡ (line ++ l) ∷ []
unfolding lines_from last_line
lines_from-line line [] h = rw (append-nil line)
lines_from-line line (x ∷ l) h =
    let e : (x == b'\n') ≡ false = ground (arith, h.0) in
    rw (e, lines_from)
      (lines_from-line (line ++ x ∷ []) l h.1 ∙ ap (λ t. t ∷ []) (append_assoc line (x ∷ []) l))

-- A text cut where a scanner's lines end: it is empty, or its last byte is a newline.
abbrev pub Ended : Bytes → Type 0
Ended s = (s ≡ []) ⊎ ((xs : Bytes) × (s ≡ xs ++ b'\n' ∷ []))

pub lines_from-Ended :
    (s ys : Bytes) → Ended s → lines_from [] (s ++ ys) ≡ lines_from [] s ++ lines_from [] ys
unfolding lines_from last_line
lines_from-Ended s ys (inl e) = rw e
lines_from-Ended s ys (inr (xs, e)) =
    ap (λ t. lines_from [] (t ++ ys)) e
    ∙ ap (lines_from []) (append_assoc xs (b'\n' ∷ []) ys)
    ∙ lines_from-append [] xs ys
    ∙ ap (λ t. lines_from [] t ++ lines_from [] ys) (sym e)

-- Lines behind lines that are all short enough.
pub scanned-append :
    (ls ms : List Bytes)
    → (scanned ls).1 ≡ true
    → scanned (ls ++ ms) ≡ ((scanned ls).0 ++ (scanned ms).0, (scanned ms).1)
unfolding scanned
scanned-append [] ms h = refl
scanned-append (l ∷ ls) ms h = elim (Bool-cases (ltb (length l) max_token)) [
  | inl y ↦ let ih = scanned-append ls ms (rw y at h) in rw (y, ih)
  | inr n ↦ cc (rw n at h)
]

trim_right-drop_cr : (l : Bytes) → trim_right (drop_cr l) ≡ trim_right l
unfolding trim_right drop_cr keep_before
trim_right-drop_cr [] = refl
trim_right-drop_cr (c ∷ []) = ground arith
trim_right-drop_cr (c ∷ d ∷ ds) = ap (keep_before c) (trim_right-drop_cr (d ∷ ds))

-- The carriage return that a scanner drops is a blank at the end.
pub trim_space-drop_cr : (l : Bytes) → trim_space (drop_cr l) ≡ trim_space l
unfolding trim_space trim_left trim_right drop_cr keep_before
trim_space-drop_cr [] = refl
trim_space-drop_cr (c ∷ []) = ground arith
trim_space-drop_cr (c ∷ d ∷ ds) = elim (Bool-cases (is_space c)) [
  | inl y ↦ rw y (trim_space-drop_cr (d ∷ ds))
  | inr u ↦ rw u (ap (keep_before c) (trim_right-drop_cr (d ∷ ds)))
]
