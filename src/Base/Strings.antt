-- ===== src/Base/Strings.antt =====
-- What the programs use of Go's packages `strings`, `strconv` and `bufio`, on ASCII text.
pub mod Laws
use Prim.Native.Nat.{ℕ, zero, suc, ◌+◌, ◌-◌}
use mathlib.Core.Bool.{Bool, true, false, not, ◌&&◌, ◌||◌}
use mathlib.Core.Option.{Option, none, some}
use mathlib.Core.List.{List, [], ◌∷◌, ◌++◌}
use star_konflict.Base.Tests.{ltb, leb, ◌==◌, if◌then◌else◌}
use star_konflict.Base.Lists.{length, drop, take}
use star_konflict.Base.Text.{Bytes, text, same, before}
use star_konflict.Base.Decimal.{value}
use star_konflict.Base.Int.{ℤ, pos, negsuc}

-- `unicode.IsSpace` on ASCII.
abbrev pub is_space : ℕ → Bool
is_space c = c == 32 || (leb 9 c && leb c 13)

unfoldable pub trim_left : Bytes → Bytes
trim_left [] = []
trim_left (c ∷ cs) = let rest = trim_left cs in if is_space c then rest else c ∷ cs

unfoldable pub keep_before : ℕ → Bytes → Bytes
keep_before c [] = if is_space c then [] else c ∷ []
keep_before c (d ∷ ds) = c ∷ d ∷ ds

unfoldable pub trim_right : Bytes → Bytes
trim_right [] = []
trim_right (c ∷ cs) = keep_before c (trim_right cs)

-- `strings.TrimSpace`.
unfoldable pub trim_space : Bytes → Bytes
trim_space s = trim_right (trim_left s)

-- `strings.HasPrefix(s, p)` and `s[len(p):]` in one: what follows the prefix.
unfoldable pub after_prefix : Bytes → Bytes → Option Bytes
after_prefix s [] = some s
after_prefix [] (p ∷ ps) = none
after_prefix (c ∷ cs) (p ∷ ps) = let rest = after_prefix cs ps in if c == p then rest else none

unfoldable pub has_suffix : Bytes → Bytes → Bool
has_suffix s t = leb (length t) (length s) && same (drop (length s - length t) s) t

unfoldable pub trim_suffix : Bytes → Bytes → Bytes
trim_suffix s t = if has_suffix s t then take (length s - length t) s else s

-- The text before the first byte `c`, and what follows it if there is one.
unfoldable pub cut_at : ℕ → Bytes → Bool → Bytes × Option Bytes → Bytes × Option Bytes
cut_at x xs true r = ([], some xs)
cut_at x xs false (a, r) = (x ∷ a, r)

unfoldable pub cut : ℕ → Bytes → Bytes × Option Bytes
cut c [] = ([], none)
cut c (x ∷ xs) = cut_at x xs (x == c) (cut c xs)

-- `strings.SplitN(s, c, n)` for a separator of one byte.
unfoldable pub split_n : ℕ → ℕ → Bytes → List Bytes
split_n c zero s = []
split_n c (suc zero) s = s ∷ []
split_n c (suc (suc n)) s =
    let (a, r) = cut c s in elim r [ none ↦ a ∷ [] | some t ↦ a ∷ split_n c (suc n) t ]

unfoldable pub lower : Bytes → Bytes
lower [] = []
lower (c ∷ cs) = (if leb b'A' c && leb c b'Z' then c + 32 else c) ∷ lower cs

unfoldable pub upper_byte : ℕ → ℕ
upper_byte c = if leb b'a' c && leb c b'z' then c - 32 else c

-- `strings.ToUpper` as far as its result is ASCII: the letters of ASCII, and the two others whose
-- upper case lies there, the long s (c5 bf) and the dotless i (c4 b1). What else is outside ASCII
-- stays outside and is left as it is.
unfoldable pub to_upper : Bytes → Bytes
to_upper [] = []
to_upper (c ∷ []) = upper_byte c ∷ []
to_upper (c ∷ d ∷ cs) =
    let after_both = to_upper cs in
    let after_one = to_upper (d ∷ cs) in
    if c == 0xc5 && d == 0xbf
    then b'S' ∷ after_both
    else if c == 0xc4 && d == 0xb1
    then b'I' ∷ after_both
    else upper_byte c ∷ after_one

-- `strings.EqualFold`.
unfoldable pub equal_fold : Bytes → Bytes → Bool
equal_fold a b = same (lower a) (lower b)

unfoldable pub all_digits : Bytes → Bool
all_digits [] = true
all_digits (c ∷ cs) = leb b'0' c && leb c b'9' && all_digits cs

unfoldable pub magnitude : Bytes → Option ℕ
magnitude [] = none
magnitude (c ∷ cs) = if all_digits (c ∷ cs) then some (value 0 (c ∷ cs)) else none

unfoldable pub negated : ℕ → ℤ
negated zero = pos 0
negated (suc n) = negsuc n

unfoldable pub in_int64 : Bool → Option ℕ → Option ℤ
in_int64 minus none = none
in_int64 true (some n) = if leb n 9223372036854775808 then some (negated n) else none
in_int64 false (some n) = if ltb n 9223372036854775808 then some (pos n) else none

-- `strconv.Atoi(s)` and `strconv.ParseInt(s, 10, 64)`; `none` is any error.
unfoldable pub atoi : Bytes → Option ℤ
atoi [] = none
atoi (c ∷ cs) =
    if c == b'-'
    then in_int64 true (magnitude cs)
    else if c == b'+'
    then in_int64 false (magnitude cs)
    else in_int64 false (magnitude (c ∷ cs))

-- A `bufio.Scanner` over lines: the lines it gives, and whether it ends without an error. It drops
-- one `\r` at a line's end, and stops at a line of 65536 bytes or more.
abbrev pub max_token : ℕ
max_token = 65536

unfoldable pub drop_cr : Bytes → Bytes
drop_cr [] = []
drop_cr (c ∷ []) = if c == b'\r' then [] else c ∷ []
drop_cr (c ∷ d ∷ ds) = c ∷ drop_cr (d ∷ ds)

-- The lines of a text; a last line needs no newline.
unfoldable pub last_line : Bytes → List Bytes
last_line [] = []
last_line (c ∷ cs) = (c ∷ cs) ∷ []

unfoldable pub lines_from : Bytes → Bytes → List Bytes
lines_from line [] = last_line line
lines_from line (c ∷ cs) = elim (c == b'\n') [
  | true ↦ line ∷ lines_from [] cs
  | false ↦ lines_from (line ++ c ∷ []) cs
]

unfoldable pub scanned : List Bytes → List Bytes × Bool
scanned [] = ([], true)
scanned (l ∷ ls) =
    let (rest, fine) = scanned ls in
    if ltb (length l) max_token then (drop_cr l ∷ rest, fine) else ([], false)

unfoldable pub scan : Bytes → List Bytes × Bool
scan s = scanned (lines_from [] s)

-- `strings.SplitN(s, "  ", 2)` where it finds two blanks.
unfoldable pub behind : ℕ → Option (Bytes × Bytes) → Option (Bytes × Bytes)
behind c none = none
behind c (some (a, b)) = some (c ∷ a, b)

unfoldable pub cut_blanks : Bytes → Option (Bytes × Bytes)
cut_blanks [] = none
cut_blanks (c ∷ []) = none
cut_blanks (c ∷ d ∷ ds) =
    let rest = behind c (cut_blanks (d ∷ ds)) in
    if c == b' ' && d == b' ' then some ([], ds) else rest

-- `strings.Fields`.
unfoldable pub word : Bytes → List Bytes → List Bytes
word [] fs = fs
word (c ∷ cs) fs = (c ∷ cs) ∷ fs

unfoldable pub fields_from : Bytes → Bytes → List Bytes
fields_from w [] = word w []
fields_from w (c ∷ cs) = elim (is_space c) [
  | true ↦ word w (fields_from [] cs)
  | false ↦ fields_from (w ++ c ∷ []) cs
]

unfoldable pub fields : Bytes → List Bytes
fields s = fields_from [] s

-- `sort.Strings`.
unfoldable pub insert_string : Bytes → List Bytes → List Bytes
insert_string a [] = a ∷ []
insert_string a (b ∷ bs) = if before b a then b ∷ insert_string a bs else a ∷ b ∷ bs

unfoldable pub sort_strings : List Bytes → List Bytes
sort_strings [] = []
sort_strings (a ∷ as') = insert_string a (sort_strings as')

-- `strings.Contains`.
unfoldable pub starts : Bytes → Bytes → Bool
starts s t = elim (after_prefix s t) [ some _ ↦ true | none ↦ false ]

unfoldable pub contains : Bytes → Bytes → Bool
contains [] t = starts [] t
contains (c ∷ cs) t = let later = contains cs t in if starts (c ∷ cs) t then true else later

-- `strings.Trim(s, c)` for one byte.
unfoldable pub trim_front : ℕ → Bytes → Bytes
trim_front c [] = []
trim_front c (x ∷ xs) = let rest = trim_front c xs in if x == c then rest else x ∷ xs

unfoldable pub keep_unless : ℕ → ℕ → Bytes → Bytes
keep_unless c x [] = if x == c then [] else x ∷ []
keep_unless c x (y ∷ ys) = x ∷ y ∷ ys

unfoldable pub trim_back : ℕ → Bytes → Bytes
trim_back c [] = []
trim_back c (x ∷ xs) = keep_unless c x (trim_back c xs)

unfoldable pub trim_byte : ℕ → Bytes → Bytes
trim_byte c s = trim_back c (trim_front c s)

-- `strings.Split(s, c)` for a separator of one byte; the first argument is the part being read.
unfoldable pub split_byte : ℕ → Bytes → Bytes → List Bytes
split_byte c part [] = part ∷ []
split_byte c part (x ∷ xs) = elim (x == c) [
  | true ↦ part ∷ split_byte c [] xs
  | false ↦ split_byte c (part ++ x ∷ []) xs
]
