-- ===== src/Client.antt =====
-- sc-capture/internal/client/steam.go: the Valve files, what `Detect` takes from them, and how it
-- describes it. Letters are folded and blanks trimmed in ASCII, as in Base/Strings. What the file system holds is given as values; `join` is `filepath.Join`, and
-- `describe` is `describeInstall` of a path, which looks at the files there.
pub mod Close
pub mod Private
pub mod Home
use star_konflict.Base.{
  ℕ, zero, suc, ◌+◌, ◌-◌, Bool, true, false, not, ◌&&◌, ◌||◌, List, [], ◌∷◌, ◌++◌, Bytes, text,
  same, Option, none, some, if◌then◌else◌, ◌==◌, ltb, leb, length, take,
}
use star_konflict.Base.Int.{ℤ, pos, negsuc}
use star_konflict.Base.Map.{lookup, insert, bytes_eq}
use star_konflict.Base.Strings.{trim_space, cut, lower, equal_fold, atoi, split_byte, after_prefix}

-- Behind an opening quote: the text up to the closing one, and what follows.
unfoldable pub closed : Bytes × Option Bytes → Option (Bytes × Bytes)
closed (a, none) = none
closed (a, some r) = some (a, r)

unfoldable pub quoted : Bytes → Option (Bytes × Bytes)
quoted [] = none
quoted (c ∷ s) = if c == b'"' then closed (cut b'"' s) else none

unfoldable pub with_value : Bytes → Option (Bytes × Bytes) → Option (Bytes × Bytes)
with_value key none = none
with_value key (some (v, r)) = some (key, v)

unfoldable pub with_key : Option (Bytes × Bytes) → Option (Bytes × Bytes)
with_key none = none
with_key (some (k, r)) = with_value k (quoted (trim_space r))

-- `kvLine`.
unfoldable pub kv_line : Bytes → Option (Bytes × Bytes)
kv_line s = with_key (quoted (trim_space s))

-- `bareToken`: the text between the quotes holds none exactly if the first closing one is last.
unfoldable pub alone : Option (Bytes × Bytes) → Option Bytes
alone none = none
alone (some (a, [])) = some a
alone (some (a, c ∷ r)) = none

unfoldable pub bare_token : Bytes → Option Bytes
bare_token s = alone (quoted (trim_space s))

-- `libraryFolders` of a file's lines.
unfoldable pub library_path : Option (Bytes × Bytes) → List Bytes → List Bytes
library_path none out = out
library_path (some (k, v)) out = if same k (text "path") then v ∷ out else out

unfoldable pub library_lines : List Bytes → List Bytes
library_lines [] = []
library_lines (l ∷ ls) = library_path (kv_line l) (library_lines ls)

unfoldable pub library_folders : Option Bytes → List Bytes
library_folders none = []
library_folders (some b) = library_lines (split_byte b'\n' [] b)

-- The variables of `parseACF`. The sections stand with the innermost first.
pub record Acf : Type 0 where
  pub kv : List (Bytes × Bytes)
  pub depots : List (Bytes × Bytes)
  pub section : List Bytes
  pub current_depot : Bytes

-- `len(section) == 3 && strings.EqualFold(section[1], "InstalledDepots")`.
unfoldable pub in_depot : List Bytes → Bool
in_depot (c ∷ b ∷ a ∷ []) = equal_fold b (text "InstalledDepots")
in_depot _ = false

unfoldable pub at_top : List Bytes → Bool
at_top (a ∷ []) = true
at_top _ = false

unfoldable pub enter_key : Acf → Bytes → Bytes → Acf
enter_key a key val =
    if at_top a.section
    then record a { kv = insert (lower key) val a.kv }
    else if in_depot a.section && equal_fold key (text "manifest")
    then record a { depots = insert a.current_depot val a.depots }
    else a

unfoldable pub popped : List Bytes → List Bytes
popped [] = []
popped (_ ∷ s) = s

-- At a line `}`.
unfoldable pub leave : Acf → Acf
leave a =
    let s = popped a.section in
    record a { section = s; current_depot = if ltb (length s) 2 then [] else a.current_depot }

-- At a line that names a section.
unfoldable pub open_section : Acf → Option Bytes → Acf
open_section a none = a
open_section a (some name) =
    let s = name ∷ a.section in
    record a { section = s; current_depot = if in_depot s then name else a.current_depot }

unfoldable pub key_or_section : Acf → Bytes → Option (Bytes × Bytes) → Acf
key_or_section a t none = open_section a (bare_token t)
key_or_section a t (some (k, v)) = enter_key a k v

-- The body of the loop, on a trimmed line.
unfoldable pub read_line : Acf → Bytes → Acf
read_line a t =
    if same t (b'{' ∷ [])
    then a
    else if same t (b'}' ∷ [])
    then leave a
    else key_or_section a t (kv_line t)

unfoldable pub read_lines : Acf → List Bytes → Acf
read_lines a [] = a
read_lines a (l ∷ ls) = read_lines (read_line a (trim_space l)) ls

unfoldable pub no_acf : Acf
no_acf = record { kv = []; depots = []; section = []; current_depot = [] }

unfoldable pub no_keys : List (Bytes × Bytes) → Bool
no_keys [] = true
no_keys (_ ∷ _) = false

-- `parseACF` of a file's lines: the keys and the depots.
unfoldable pub parse_lines : List Bytes → Option (List (Bytes × Bytes) × List (Bytes × Bytes))
parse_lines ls =
    let a = read_lines no_acf ls in if no_keys a.kv then none else some (a.kv, a.depots)

unfoldable pub parse_acf : Option Bytes → Option (List (Bytes × Bytes) × List (Bytes × Bytes))
parse_acf none = none
parse_acf (some b) = parse_lines (split_byte b'\n' [] b)

-- What `describeInstall` finds at a path.
pub record Install : Type 0 where
  pub install_path : Bytes
  pub binary_name : Bytes
  pub binary_size : ℕ
  pub binary_sha256 : Bytes
  pub binary_build_id : Bytes
  pub binary_arch : Bytes
  pub platform : Bytes
  pub runtime : Bytes

pub record Info : Type 0 where
  pub app_id : Bytes
  pub name : Bytes
  pub build_id : Bytes
  pub depots : List (Bytes × Bytes)
  pub last_updated : Option ℕ
  pub launcher : Bytes
  pub source : Bytes
  pub install : Install

unfoldable pub or_empty_key : Option Bytes → Bytes
or_empty_key none = []
or_empty_key (some v) = v

-- `kv[key]`.
unfoldable pub key_value : List (Bytes × Bytes) → Bytes → Bytes
key_value kv key = or_empty_key (lookup key kv)

-- The seconds of `lastupdated`, if they are a positive number.
unfoldable pub updated_at : Option ℤ → Option ℕ
updated_at none = none
updated_at (some (pos n)) = if n == 0 then none else some n
updated_at (some (negsuc n)) = none

unfoldable pub behind_home : Bytes → Option Bytes → Bytes
behind_home path none = path
behind_home path (some rest) = b'~' ∷ b'/' ∷ rest

-- `tildify`, where `home` is what `os.UserHomeDir` returns.
unfoldable pub tildify : Option Bytes → Bytes → Bytes
tildify none path = path
tildify (some []) path = path
tildify (some (h ∷ home)) [] = []
tildify (some (h ∷ home)) (c ∷ path) =
    if same (c ∷ path) (h ∷ home)
    then b'~' ∷ []
    else behind_home (c ∷ path) (after_prefix (c ∷ path) ((h ∷ home) ++ b'/' ∷ []))

module _ (join : List Bytes → Bytes) (describe : Bytes → Install) (home : Option Bytes) where
  unfoldable pub described : Bytes → Install
  described path = let i = describe path in record i { install_path = tildify home i.install_path }

  unfoldable pub install_dir : Bytes → Bytes → Bytes
  install_dir lib [] = []
  install_dir lib (c ∷ dir) = join (lib ∷ text "steamapps" ∷ text "common" ∷ (c ∷ dir) ∷ [])

  unfoldable pub info_of : Bytes → Bytes → List (Bytes × Bytes) → List (Bytes × Bytes) → Info
  info_of app lib kv depots = record {
    app_id = app;
    name = key_value kv (text "name");
    build_id = key_value kv (text "buildid");
    depots = depots;
    last_updated = updated_at (atoi (key_value kv (text "lastupdated")));
    launcher = text "steam";
    source = text "steam appmanifest";
    install = described (install_dir lib (key_value kv (text "installdir")));
  }

  unfoldable pub info_or :
      Bytes
      → Bytes
      → Option (List (Bytes × Bytes) × List (Bytes × Bytes))
      → Option Info
      → Option Info
  info_or app lib none rest = rest
  info_or app lib (some (kv, depots)) rest = some (info_of app lib kv depots)

  -- The loop of `Detect` over the libraries, each with the text of its manifest.
  unfoldable pub detect_in : Bytes → List (Bytes × Option Bytes) → Option Info
  detect_in app [] = none
  detect_in app ((lib, manifest) ∷ ls) = info_or app lib (parse_acf manifest) (detect_in app ls)

  unfoldable pub app_or_default : Bytes → Bytes
  app_or_default [] = text "212070"
  app_or_default (c ∷ app) = c ∷ app

  -- `Detect` with the options `AppID` and `InstallDir`.
  unfoldable pub detect : Bytes → Bytes → List (Bytes × Option Bytes) → Option Info
  detect app [] libs = detect_in (app_or_default app) libs
  detect app (c ∷ dir) libs = some (record {
    app_id = app_or_default app;
    name = [];
    build_id = [];
    depots = [];
    last_updated = none;
    launcher = [];
    source = text "explicit --client-dir";
    install = described (c ∷ dir);
  })

unfoldable pub joined_parts : List Bytes → Bytes
joined_parts [] = []
joined_parts (p ∷ []) = p
joined_parts (p ∷ q ∷ ps) = p ++ (b',' ∷ b' ' ∷ joined_parts (q ∷ ps))

unfoldable pub part_if : Bytes → Bytes → List Bytes → List Bytes
part_if prefix [] ps = ps
part_if prefix (c ∷ s) ps = (prefix ++ (c ∷ s)) ∷ ps

unfoldable pub found_parts : List Bytes → Bytes
found_parts [] = text "client found but not identified"
found_parts (p ∷ ps) = joined_parts (p ∷ ps)

-- `Summary`; `none` is a nil receiver.
unfoldable pub summary : Option Info → Bytes
summary none = text "client not identified"
summary (some i) = found_parts (
    part_if [] i.name (
      part_if (text "build ") i.build_id (
        part_if (text "binary ") (take 12 i.install.binary_build_id)
          (part_if [] i.install.binary_arch []))))
