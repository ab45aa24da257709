-- ===== src/Session/Bundle.antt =====
-- sc-capture/internal/session/bundle.go, without the permissions. The text of a time is an
-- argument. Bytes outside ASCII end up as dashes or are dropped, so it is enough that blanks are
-- trimmed in ASCII and that `ToUpper` is exact where its result is ASCII. `parent` says whether
-- `os.MkdirAll` makes the parent; `denied` says for which names `os.Mkdir` fails with another error than that
-- the directory exists, and `chmod` for which names `os.Chmod` succeeds.
pub mod Valid
pub mod Create
use star_konflict.Base.{
  ℕ, zero, suc, ◌+◌, ◌-◌, Bool, true, false, ◌&&◌, ◌||◌, List, [], ◌∷◌, ◌++◌, Bytes, text, same,
  Option, none, some, if◌then◌else◌, ◌==◌, leb, length, replicate,
}
use star_konflict.Base.Decimal.{decimal}
use star_konflict.Base.Strings.{trim_space, trim_byte, to_upper, after_prefix}

abbrev pub default_scenario : Bytes
default_scenario = text "ADHOC"

abbrev pub default_volunteer : Bytes
default_volunteer = text "vol-local"

abbrev pub is_upper : ℕ → Bool
is_upper c = leb b'A' c && leb c b'Z'

abbrev pub is_digit : ℕ → Bool
is_digit c = leb b'0' c && leb c b'9'

abbrev pub in_scenario : ℕ → Bool
in_scenario c = is_upper c || (is_digit c || c == b'-')

abbrev pub in_volunteer : ℕ → Bool
in_volunteer c = in_scenario c || (leb b'a' c && leb c b'z')

-- `ReplaceAllString(s, "-")` of a pattern `[^…]+`: each run of other bytes becomes one dash. The
-- flag says that the byte before was in such a run.
unfoldable pub dash_unless : Bool → Bytes → Bytes
dash_unless true s = s
dash_unless false s = b'-' ∷ s

unfoldable pub sanitise : (ℕ → Bool) → Bytes → Bool → Bytes
sanitise good [] run = []
sanitise good (c ∷ cs) run = elim (good c) [
  | true ↦ c ∷ sanitise good cs false
  | false ↦ dash_unless run (sanitise good cs true)
]

-- `ReplaceAllString(s, "")`.
unfoldable pub strip : (ℕ → Bool) → Bytes → Bytes
strip good [] = []
strip good (c ∷ cs) = let rest = strip good cs in if good c then c ∷ rest else rest

unfoldable pub or_default : Bytes → Bytes → Bytes
or_default d [] = d
or_default d (c ∷ cs) = c ∷ cs

-- `strings.TrimPrefix`.
unfoldable pub unless_prefixed : Bytes → Option Bytes → Bytes
unless_prefixed s none = s
unless_prefixed s (some rest) = rest

unfoldable pub scenario_part : Bytes → Bytes
scenario_part s =
    let clean =
      or_default default_scenario
        (trim_byte b'-' (sanitise in_scenario (to_upper (trim_space s)) false)) in
    unless_prefixed clean (after_prefix clean (text "SC-"))

unfoldable pub volunteer_part : Bytes → Bytes
volunteer_part s =
    or_default default_volunteer (trim_byte b'-' (sanitise in_volunteer (trim_space s) false))

unfoldable pub region_part : Bytes → Bytes
region_part s = strip is_upper (to_upper (trim_space s))

abbrev pub separator : Bytes → Bytes
separator rest = b'_' ∷ b'_' ∷ rest

-- The `%03d` verb.
unfoldable pub three_digits : ℕ → Bytes
three_digits n = replicate (3 - length (decimal n)) b'0' ++ decimal n

unfoldable pub bundle_id : Bytes → Bytes → Bytes → Bytes → ℕ → Bytes
bundle_id start scenario volunteer region seq =
    b'S'
    ∷ b'C'
    ∷ b'_'
    ∷ (start
        ++ separator (
            scenario_part scenario
            ++ separator (
                volunteer_part volunteer
                ++ separator (region_part region ++ separator (three_digits seq)))))

-- The parts of the pattern of `ValidBundleID`. No class holds the byte that follows its run, so the
-- longest run is the one that the pattern takes.
unfoldable pub exactly : ℕ → Bytes → Option Bytes
exactly zero s = some s
exactly (suc n) [] = none
exactly (suc n) (c ∷ s) = let rest = exactly n s in if is_digit c then rest else none

unfoldable pub run_of : (ℕ → Bool) → Bytes → Bytes
run_of good [] = []
run_of good (c ∷ s) = let rest = run_of good s in if good c then rest else c ∷ s

unfoldable pub one_or_more : (ℕ → Bool) → Bytes → Option Bytes
one_or_more good [] = none
one_or_more good (c ∷ s) = if good c then some (run_of good s) else none

unfoldable pub literal : Bytes → Bytes → Option Bytes
literal t s = after_prefix s t

unfoldable pub at_end : Bytes → Bool
at_end [] = true
at_end (_ ∷ _) = false

infixl 5 ◌>>=◌
abbrev ◌>>=◌ : Option Bytes → (Bytes → Option Bytes) → Option Bytes
none >>= f = none
some s >>= f = f s

abbrev underscores : Bytes
underscores = b'_' ∷ b'_' ∷ []

unfoldable pub matched : Bytes → Option Bytes
unfolding exactly one_or_more literal
matched id = do
  a ← literal (b'S' ∷ b'C' ∷ b'_' ∷ []) id
  b ← exactly 8 a
  c ← literal (b'T' ∷ []) b
  d ← exactly 6 c
  e ← literal (b'Z' ∷ b'_' ∷ b'_' ∷ []) d
  f ← one_or_more in_scenario e
  g ← literal underscores f
  h ← one_or_more in_volunteer g
  i ← literal underscores h
  j ← literal underscores (run_of is_upper i)
  exactly 3 j

unfoldable pub complete : Option Bytes → Bool
complete none = false
complete (some rest) = at_end rest

unfoldable pub valid_bundle_id : Bytes → Bool
valid_bundle_id id = complete (matched id)

unfoldable pub has_name : Bytes → List Bytes → Bool
has_name n [] = false
has_name n (d ∷ ds) = if same d n then true else has_name n ds

-- What `CreateBundle` returns; `dirs` are the directories of the parent.
pub data Created : Type 0 where
  created : Bytes → Created
  parent_failed chmod_failed mkdir_failed no_free_number : Created

module _ (denied chmod : Bytes → Bool) where
  -- The loop from `seq` on, with `n` rounds left; `name` is `BundleID` at a number.
  unfoldable pub create_from : (ℕ → Bytes) → List Bytes → ℕ → ℕ → Created × List Bytes
  create_from name dirs zero seq = (no_free_number, dirs)
  create_from name dirs (suc n) seq =
      let id = name seq in
      let rest = create_from name dirs n (seq + 1) in
      if denied id
      then (mkdir_failed, dirs)
      else if has_name id dirs
      then rest
      else (if chmod id then created id else chmod_failed, id ∷ dirs)

  unfoldable pub create_bundle :
      Bool → Bytes → Bytes → Bytes → Bytes → List Bytes → Created × List Bytes
  create_bundle false start scenario volunteer region dirs = (parent_failed, dirs)
  create_bundle true start scenario volunteer region dirs =
      create_from (bundle_id start scenario volunteer region) dirs 1000 0
