-- ===== src/Session/Metadata.antt =====
-- The version rule of sc-capture/internal/session/metadata.go. What the JSON package finds in a
-- file is given by the parameters `probe`, the field `schema_version`, and `unmarshal`.
use star_konflict.Base.{
  ℕ, ◌<◌, ◌≡◌, ◌≢◌, ◌↔◌, refl, Bool, false, not, ◌||◌, [], ◌∷◌, ◌++◌, Bytes, text, Option, none,
  some, if◌then◌else◌, ◌==◌, arith,
}
use star_konflict.Base.Decimal.{decimal, decimal-Without}
use star_konflict.Base.Int.{ℤ, pos, negsuc, ltb_ℤ}
use star_konflict.Base.Strings.{cut, cut_at, atoi, magnitude, in_int64, all_digits}
use star_konflict.Base.Strings.Laws.{cut-append, atoi-padded, append-ne-nil}

abbrev pub schema_version : Bytes
schema_version = text "1.0"

-- `ErrSchemaUnreadable`.
pub record Unreadable : Type 0 where
  pub found : Bytes
  pub supports : Bytes

unfoldable pub or_minus_one : Option ℤ → ℤ
or_minus_one none = negsuc 0
or_minus_one (some n) = n

-- The closure `major`.
unfoldable pub major : Bytes → ℤ
major s = or_minus_one (atoi (cut b'.' s).0)

unfoldable pub same_ℤ : ℤ → ℤ → Bool
same_ℤ (pos a) (pos b) = a == b
same_ℤ (pos a) (negsuc b) = false
same_ℤ (negsuc a) (pos b) = false
same_ℤ (negsuc a) (negsuc b) = a == b

unfoldable pub check_major : Bytes → ℤ → ℤ → Option Unreadable
check_major v got want =
    if ltb_ℤ got (pos 0) || not (same_ℤ got want)
    then some (record { found = v; supports = schema_version })
    else none

-- `CheckSchemaVersion`; `none` is a nil error.
unfoldable pub check_schema_version : Bytes → Option Unreadable
check_schema_version [] = some (record { found = text "(absent)"; supports = schema_version })
check_schema_version (c ∷ v) = check_major (c ∷ v) (major (c ∷ v)) (major schema_version)

-- What `LoadMetadata` returns: the sidecar, or one of its errors.
pub data Loading {ℓ} (M : Type ℓ) : Type ℓ where
  loaded : M → Loading M
  read_failed : Loading M
  bad_json : Loading M
  schema_unreadable : Unreadable → Loading M
  bad_fields : Loading M

module _ {ℓ} {M : Type ℓ} (probe : Bytes → Option Bytes) (unmarshal : Bytes → Option M) where
  unfoldable pub fill : Option M → Loading M
  fill none = bad_fields
  fill (some m) = loaded m

  unfoldable pub with_version : Bytes → Option Unreadable → Loading M
  with_version b none = fill (unmarshal b)
  with_version b (some e) = schema_unreadable e

  unfoldable pub with_probe : Bytes → Option Bytes → Loading M
  with_probe b none = bad_json
  with_probe b (some v) = with_version b (check_schema_version v)

  unfoldable pub load_metadata : Option Bytes → Loading M
  load_metadata none = read_failed
  load_metadata (some b) = with_probe b (probe b)

major_own : major schema_version ≡ pos 1
unfolding major or_minus_one cut cut_at atoi magnitude in_int64 all_digits text
major_own = refl

major-number :
    (n : ℕ) (minor : Bytes) → n < 9223372036854775808 → major (decimal n ++ (b'.' ∷ minor)) ≡ pos n
unfolding major or_minus_one
major-number n minor h =
    let dotless = decimal-Without b'.' n (λ d. omega (arith, d)) in
    rw (cut-append b'.' (decimal n) minor dotless, atoi-padded 0 n h)

check-ne-nil :
    (v : Bytes) → v ≢ [] → check_schema_version v ≡ check_major v (major v) (major schema_version)
unfolding check_schema_version
check-ne-nil [] h = absurd (h refl)
check-ne-nil (c ∷ v) h = refl

check_major-number :
    (v : Bytes) (n : ℕ)
    → ((check_major v (pos n) (pos 1) ≡ none) ↔ (n ≡ 1))
      × (n ≢ 1
          → check_major v (pos n) (pos 1) ≡ some (record { found = v; supports = schema_version }))
unfolding check_major ltb_ℤ same_ℤ
check_major-number v n = ground arith

-- A version whose number before the first dot is `n`, below 2^63, passes exactly when `n` is 1,
-- whatever follows the dot, and any other is refused with an error that names it.
pub check_schema_version_iff :
    (n : ℕ) (minor : Bytes)
    → n < 9223372036854775808
    → let v = decimal n ++ (b'.' ∷ minor) in
      ((check_schema_version v ≡ none) ↔ (n ≡ 1))
      × (n ≢ 1 → check_schema_version v ≡ some (record { found = v; supports = schema_version }))
check_schema_version_iff n minor h =
    let v = decimal n ++ (b'.' ∷ minor) in
    let e = check-ne-nil v (append-ne-nil (decimal n) _ (λ f. cc)) in
    rw (e, major-number n minor h, major_own) (check_major-number v n)
