-- ===== src/Journal/Sums.antt =====
-- sc-capture/internal/journal/hashes.go. The digest of a file's content is the parameter `sha256`,
-- as hexadecimal text; the walk over the directory is the list of its files, each with its path
-- and its content, `none` for one that cannot be read.
pub mod RoundTrip
use star_konflict.Base.{
  ℕ, ◌+◌, ◌%◌, Bool, true, false, not, ◌&&◌, ◌||◌, List, [], ◌∷◌, ◌++◌, Bytes, text, same, Option,
  none, some, if◌then◌else◌, ◌==◌, leb, length,
}
use star_konflict.Base.Map.{lookup, insert, keys, bytes_eq}
use star_konflict.Base.Strings.{trim_space, has_suffix, cut_blanks, fields, scan, sort_strings}

abbrev pub sums_file : Bytes
sums_file = text "SHA256SUMS"

module _ (sha256 : Bytes → Bytes) where
  -- The walk of `HashDir` from the map `out` on; it stops at the first file that cannot be read.
  unfoldable pub hash_walk :
      List (Bytes × Option Bytes) → List (Bytes × Bytes) → Option (List (Bytes × Bytes))
  hash_walk [] out = some out
  hash_walk ((rel, content) ∷ fs) out =
      let skipped = hash_walk fs out in
      if same rel sums_file || has_suffix rel (text ".tmp")
      then skipped
      else elim content [ none ↦ none | some c ↦ hash_walk fs (insert rel (sha256 c) out) ]

  unfoldable pub hash_dir : List (Bytes × Option Bytes) → Option (List (Bytes × Bytes))
  hash_dir files = hash_walk files []

-- `sums[n]`, the empty string if there is none.
unfoldable pub or_empty : Option Bytes → Bytes
or_empty none = []
or_empty (some d) = d

unfoldable pub digest_of : List (Bytes × Bytes) → Bytes → Bytes
digest_of sums n = or_empty (lookup n sums)

-- `"%s  %s\n"`.
abbrev pub sum_line : List (Bytes × Bytes) → Bytes → Bytes
sum_line sums n = digest_of sums n ++ (b' ' ∷ b' ' ∷ n)

unfoldable pub sum_lines : List (Bytes × Bytes) → List Bytes → Bytes
sum_lines sums [] = []
sum_lines sums (n ∷ ns) = (sum_line sums n ++ b'\n' ∷ []) ++ sum_lines sums ns

-- What `WriteSums` puts into the manifest.
unfoldable pub write_sums : List (Bytes × Bytes) → Bytes
write_sums sums = sum_lines sums (sort_strings (keys sums))

-- `hex.DecodeString` finds no error.
abbrev pub is_hex : ℕ → Bool
is_hex c = (leb b'0' c && leb c b'9') || (leb b'a' c && leb c b'f') || (leb b'A' c && leb c b'F')

unfoldable pub all_hex : Bytes → Bool
all_hex [] = true
all_hex (c ∷ cs) = is_hex c && all_hex cs

unfoldable pub decodes : Bytes → Bool
decodes d = all_hex d && (length d % 2 == 0)

-- What `ReadSums` returns: the map, or the line or the digest that it refuses.
pub data SumsRead : Type 0 where
  sums : List (Bytes × Bytes) → SumsRead
  malformed_line malformed_digest : Bytes → SumsRead
  scan_failed : SumsRead

-- The two parts of a line; other tooling may write one blank.
unfoldable pub two_fields : List Bytes → Option (Bytes × Bytes)
two_fields (a ∷ b ∷ []) = some (a, b)
two_fields _ = none

unfoldable pub parts_of : Bytes → Option (Bytes × Bytes) → Option (Bytes × Bytes)
parts_of line (some p) = some p
parts_of line none = two_fields (fields line)

-- The body of the loop, behind the empty line: the digest and the name.
unfoldable pub split_sum : Bytes → Option (Bytes × Bytes)
split_sum line = parts_of line (cut_blanks line)

unfoldable pub read_part :
    Bytes
    → Option (Bytes × Bytes)
    → (List (Bytes × Bytes) → SumsRead)
    → List (Bytes × Bytes)
    → SumsRead
read_part line none next out = malformed_line line
read_part line (some (d, n)) next out =
    if decodes d then next (insert (trim_space n) d out) else malformed_digest d

unfoldable pub read_line :
    Bytes → (List (Bytes × Bytes) → SumsRead) → List (Bytes × Bytes) → SumsRead
read_line [] next out = next out
read_line (c ∷ line) next out = read_part (c ∷ line) (split_sum (c ∷ line)) next out

unfoldable pub read_loop : List Bytes → Bool → List (Bytes × Bytes) → SumsRead
read_loop [] fine out = if fine then sums out else scan_failed
read_loop (l ∷ ls) fine out = read_line (trim_space l) (read_loop ls fine) out

-- `ReadSums` of a file that opens.
unfoldable pub read_sums : Bytes → SumsRead
read_sums content = let (ls, fine) = scan content in read_loop ls fine []
