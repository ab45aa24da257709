-- ===== src/Client/Private.antt =====
-- What `Detect` of sc-capture/internal/client/steam.go does not depend on.
use star_konflict.Base.{
  ◌≡◌, ◌≢◌, refl, sym, ap, ◌∙◌, Bool, true, false, List, [], ◌∷◌, Bytes, text, same, same_iff,
  Option, none, some, if◌then◌else◌,
}
use star_konflict.Base.Map.{bytes_eq}
use star_konflict.Base.Strings.{split_byte}
use star_konflict.Client.{
  Acf, no_acf, parse_lines, parse_acf, Install, Info, key_value, info_of, info_or, detect_in,
  detect,
}
use star_konflict.Client.Close.{owner_key, AllAlike, Close, read_lines-Close}

-- Two manifests: both absent, or texts whose lines are alike.
abbrev pub SameManifest : Option Bytes → Option Bytes → Type 0
SameManifest none none = Unit {0}
SameManifest none (some c) = ⊥
SameManifest (some b) none = ⊥
SameManifest (some b) (some c) = AllAlike (split_byte b'\n' [] b) (split_byte b'\n' [] c)

abbrev pub SameLibraries : List (Bytes × Option Bytes) → List (Bytes × Option Bytes) → Type 0
SameLibraries [] [] = Unit {0}
SameLibraries [] (l ∷ ls) = ⊥
SameLibraries (l ∷ ls) [] = ⊥
SameLibraries ((p, b) ∷ ls) ((q, c) ∷ ms) = (p ≡ q) × SameManifest b c × SameLibraries ls ms

apart : (k : Bytes) → same k owner_key ≡ false → k ≢ owner_key
apart k h e = cc (sym h ∙ (same_iff k owner_key).1 e)

name_apart : same (text "name") owner_key ≡ false
unfolding same text
name_apart = refl

build_apart : same (text "buildid") owner_key ≡ false
unfolding same text
build_apart = refl

updated_apart : same (text "lastupdated") owner_key ≡ false
unfolding same text
updated_apart = refl

dir_apart : same (text "installdir") owner_key ≡ false
unfolding same text
dir_apart = refl

Close-refl : (a : Acf) → Close a a
Close-refl a = record {
  keys = λ k e. refl;
  none_yet = refl;
  depots = refl;
  section = refl;
  depot = refl;
}

module _ (join : List Bytes → Bytes) (describe : Bytes → Install) (home : Option Bytes) where
  info_of-Close :
      (app lib : Bytes) (a b : Acf)
      → Close a b
      → info_of join describe home app lib a.kv a.depots
        ≡ info_of join describe home app lib b.kv b.depots
  unfolding info_of key_value
  info_of-Close app lib a b h = rw (
    h.keys (text "name") (apart _ name_apart),
    h.keys (text "buildid") (apart _ build_apart),
    h.keys (text "lastupdated") (apart _ updated_apart),
    h.keys (text "installdir") (apart _ dir_apart),
    h.depots,
  )

  info_or-if :
      (s t : Bool) (app lib : Bytes) (a b : Acf) (r : Option Info)
      → s ≡ t
      → Close a b
      → info_or join describe home app lib (if s then none else some (a.kv, a.depots)) r
        ≡ info_or join describe home app lib (if t then none else some (b.kv, b.depots)) r
  unfolding info_or
  info_or-if true true app lib a b r e h = refl
  info_or-if true false app lib a b r e h = cc
  info_or-if false true app lib a b r e h = cc
  info_or-if false false app lib a b r e h = ap some (info_of-Close app lib a b h)

  info_or-same :
      (app lib : Bytes) (b c : Option Bytes) (r : Option Info)
      → SameManifest b c
      → info_or join describe home app lib (parse_acf b) r
        ≡ info_or join describe home app lib (parse_acf c) r
  unfolding parse_acf parse_lines
  info_or-same app lib none none r h = refl
  info_or-same app lib none (some c) r h = elim h [ ]
  info_or-same app lib (some b) none r h = elim h [ ]
  info_or-same app lib (some b) (some c) r h =
      let close =
        read_lines-Close (split_byte b'\n' [] b) (split_byte b'\n' [] c) no_acf no_acf h
          (Close-refl no_acf) in
      info_or-if _ _ app lib _ _ r close.none_yet close

  detect_in-same :
      (app : Bytes) (ls ms : List (Bytes × Option Bytes))
      → SameLibraries ls ms
      → detect_in join describe home app ls ≡ detect_in join describe home app ms
  unfolding detect_in
  detect_in-same app [] [] h = refl
  detect_in-same app [] (m ∷ ms) h = elim h [ ]
  detect_in-same app (l ∷ ls) [] h = elim h [ ]
  detect_in-same app ((p, b) ∷ ls) ((q, c) ∷ ms) (e, m, rest) =
      rw (e, detect_in-same app ls ms rest) (info_or-same app q b c _ m)

  -- What `Detect` finds does not depend on who owns the account: of two machines whose Steam
  -- libraries have the same paths, and manifests that agree line by line but for the values of
  -- `LastOwner`, in whatever case that key is written and wherever it stands, it returns the same.
  pub detect-same :
      (app dir : Bytes) (ls ms : List (Bytes × Option Bytes))
      → SameLibraries ls ms
      → detect join describe home app dir ls ≡ detect join describe home app dir ms
  unfolding detect
  detect-same app [] ls ms h = detect_in-same _ ls ms h
  detect-same app (c ∷ dir) ls ms h = refl
