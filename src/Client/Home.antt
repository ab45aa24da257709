-- ===== src/Client/Home.antt =====
-- `tildify` of sc-capture/internal/client/steam.go, on paths that are given by their names.
use mathlib.Core.Path.{subst}
use star_konflict.Base.{
  ℕ, ◌≡◌, ◌≢◌, refl, sym, ap, ◌∙◌, true, false, List, [], ◌∷◌, ◌++◌, Bytes, same, same_iff,
  same_refl, some, ◌==◌, if◌then◌else◌, arith, Bool-cases, Option-cases, inl, inr, All,
  append_assoc, append-nil,
}
use star_konflict.Base.Decimal.{Without}
use star_konflict.Base.Strings.{after_prefix}
use star_konflict.Client.{behind_home, tildify}

-- `/a/b` for the names a and b.
abbrev pub path_of : List Bytes → Bytes
path_of [] = []
path_of (n ∷ ns) = b'/' ∷ (n ++ path_of ns)

-- Empty, or a slash and more.
abbrev Slashed : Bytes → Type 0
Slashed [] = Unit
Slashed (c ∷ cs) = c ≡ b'/'

path_of-append : (ns ms : List Bytes) → path_of (ns ++ ms) ≡ path_of ns ++ path_of ms
path_of-append [] ms = refl
path_of-append (n ∷ ns) ms =
    ap (λ t. b'/' ∷ t)
      (ap (λ t. n ++ t) (path_of-append ns ms) ∙ sym (append_assoc n (path_of ns) (path_of ms)))

path_of-Slashed : (ns : List Bytes) (t : Bytes) → Slashed t → Slashed (path_of ns ++ t)
path_of-Slashed [] t h = h
path_of-Slashed (n ∷ ns) t h = refl

heads : (x y : ℕ) (xs ys : Bytes) → x ∷ xs ≡ y ∷ ys → x ≡ y
heads x y xs ys e = cc

tails : (x y : ℕ) (xs ys : Bytes) → x ∷ xs ≡ y ∷ ys → xs ≡ ys
tails x y xs ys e = cc

-- A name ends where the first slash is.
same_names :
    (a b s t : Bytes)
    → Without b'/' a
    → Without b'/' b
    → Slashed s
    → Slashed t
    → a ++ s ≡ b ++ t
    → (a ≡ b) × (s ≡ t)
same_names [] [] s t f g h k e = (refl, e)
same_names [] (y ∷ b) [] t f g h k e = cc
same_names [] (y ∷ b) (x ∷ s) t f g h k e = absurd (g.0 (sym (heads x y s (b ++ t) e) ∙ h))
same_names (x ∷ a) [] s [] f g h k e = cc
same_names (x ∷ a) [] s (y ∷ t) f g h k e = absurd (f.0 (heads x y (a ++ s) t e ∙ k))
same_names (x ∷ a) (y ∷ b) s t f g h k e =
    let (p, q) = same_names a b s t f.1 g.1 h k (tails x y _ _ e) in
    let first = heads x y _ _ e in (cc, q)

-- A path that starts as another with whole names starts with its names.
starts_with :
    (hs ps : List Bytes) (t : Bytes)
    → All (Without b'/') hs
    → All (Without b'/') ps
    → Slashed t
    → path_of ps ≡ path_of hs ++ t
    → (rest : List Bytes) × (ps ≡ hs ++ rest)
starts_with [] ps t f g k e = (ps, refl)
starts_with (h ∷ hs) [] t f g k e = cc
starts_with (h ∷ hs) (p ∷ ps) t f g k e =
    let (a, b) =
      same_names p h (path_of ps) (path_of hs ++ t) g.0 f.0
        (subst Slashed (append-nil (path_of ps)) (path_of-Slashed ps [] tt))
        (path_of-Slashed hs t k) (tails b'/' b'/' _ _ e ∙ append_assoc h (path_of hs) t) in
    let (rest, c) = starts_with hs ps t f.1 g.1 k b in
    (rest, ap (λ n. n ∷ ps) a ∙ ap (λ ns. h ∷ ns) c)

after_prefix-append : (p r : Bytes) → after_prefix (p ++ r) p ≡ some r
unfolding after_prefix
after_prefix-append [] r = refl
after_prefix-append (c ∷ p) r =
    let e : (c == c) ≡ true = ground arith in rw (e, after_prefix-append p r)

after_prefix-some : (s p r : Bytes) → after_prefix s p ≡ some r → s ≡ p ++ r
unfolding after_prefix
after_prefix-some s [] r h = cc
after_prefix-some [] (c ∷ p) r h = cc
after_prefix-some (d ∷ s) (c ∷ p) r h = elim (Bool-cases (d == c)) [
  | inl y ↦
      let e : d ≡ c = ground arith in
      let rest = after_prefix-some s p r (ground (arith, h, y)) in cc
  | inr n ↦ ground (arith, h, n)
]

-- A longer path is no equal one.
not_itself : (p t : Bytes) (c : ℕ) → same (p ++ c ∷ t) p ≡ false
unfolding same
not_itself [] t c = refl
not_itself (d ∷ p) t c = let e : (d == d) ≡ true = ground arith in rw (e, not_itself p t c)

-- The two tests of `tildify`.
abbrev tested : Bytes → Bytes → Bytes
tested home path =
    if same path home then b'~' ∷ [] else behind_home path (after_prefix path (home ++ b'/' ∷ []))

tested_inside : (home more : Bytes) → tested home (home ++ b'/' ∷ more) ≡ b'~' ∷ b'/' ∷ more
unfolding behind_home
tested_inside home more =
    let found : after_prefix (home ++ b'/' ∷ more) (home ++ b'/' ∷ []) ≡ some more =
      ap (λ p. after_prefix p (home ++ b'/' ∷ [])) (sym (append_assoc home (b'/' ∷ []) more))
      ∙ after_prefix-append (home ++ b'/' ∷ []) more in
    rw (not_itself home more b'/', found)

tested_outside :
    (home path : Bytes)
    → path ≢ home
    → ((r : Bytes) → path ≢ home ++ b'/' ∷ r)
    → tested home path ≡ path
unfolding behind_home
tested_outside home path a b = elim (Bool-cases (same path home)) [
  | inl y ↦ absurd (a ((same_iff path home).0 y))
  | inr n ↦ elim (Option-cases (after_prefix path (home ++ b'/' ∷ []))) [
    | inl none_found ↦ rw (n, none_found)
    | inr (r, found) ↦
        absurd (
          b r
            (after_prefix-some path (home ++ b'/' ∷ []) r found ∙ append_assoc home (b'/' ∷ []) r))
  ]
]

tildify_inside :
    (h : Bytes) (hs rest : List Bytes)
    → tildify (some (path_of (h ∷ hs))) (path_of ((h ∷ hs) ++ rest)) ≡ b'~' ∷ path_of rest
unfolding tildify
tildify_inside h hs [] = rw (append-nil hs, same_refl (path_of (h ∷ hs)))
tildify_inside h hs (n ∷ rest) =
    ap (tested (path_of (h ∷ hs))) (path_of-append (h ∷ hs) (n ∷ rest))
    ∙ tested_inside (path_of (h ∷ hs)) (n ++ path_of rest)

tildify_outside :
    (h : Bytes) (hs ps : List Bytes)
    → All (Without b'/') (h ∷ hs)
    → All (Without b'/') ps
    → ((rest : List Bytes) → ps ≢ (h ∷ hs) ++ rest)
    → tildify (some (path_of (h ∷ hs))) (path_of ps) ≡ path_of ps
unfolding tildify
tildify_outside h hs [] f g apart = refl
tildify_outside h hs (p ∷ ps) f g apart =
    tested_outside (path_of (h ∷ hs)) (path_of (p ∷ ps))
      (λ e.
        let (rest, q) =
          starts_with (h ∷ hs) (p ∷ ps) [] f g tt (e ∙ sym (append-nil (path_of (h ∷ hs)))) in
        apart rest q)
      (λ r e. let (rest, q) = starts_with (h ∷ hs) (p ∷ ps) (b'/' ∷ r) f g refl e in apart rest q)

-- Where the home directory and a path are absolute and given by names without slashes, the home
-- directory by one name at least: if the path starts with all names of the home directory, what
-- `tildify` returns is `~` and the other names, and if it does not, the path itself.
pub tildify_hides :
    (h : Bytes) (hs ps : List Bytes)
    → All (Without b'/') (h ∷ hs)
    → All (Without b'/') ps
    → let home = path_of (h ∷ hs) in
      ((rest : List Bytes)
        → ps ≡ (h ∷ hs) ++ rest
        → tildify (some home) (path_of ps) ≡ b'~' ∷ path_of rest)
      × (((rest : List Bytes) → ps ≢ (h ∷ hs) ++ rest)
          → tildify (some home) (path_of ps) ≡ path_of ps)
tildify_hides h hs ps f g = (
  λ rest e. ap (λ qs. tildify (some (path_of (h ∷ hs))) (path_of qs)) e ∙ tildify_inside h hs rest,
  λ apart. tildify_outside h hs ps f g apart,
)
