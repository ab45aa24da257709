-- ===== src/Session/Bundle/Valid.antt =====
-- Every name that `BundleID` of sc-capture/internal/session/bundle.go builds is a valid one.
use star_konflict.Base.{
  ℕ, zero, suc, ◌-◌, ◌<◌, ◌≡◌, ◌≢◌, refl, sym, ap, ◌∙◌, Bool, true, false, [], ◌∷◌, ◌++◌, Bytes,
  text, Option, none, some, ◌==◌, length, replicate, All, length-append, length-replicate,
  append-nil, append_assoc, arith, Bool-cases, Option-cases, inl, inr,
}
use star_konflict.Base.Decimal.{decimal, IsDigit, decimal-IsDigit, length-decimal, zeros-IsDigit}
use star_konflict.Base.Strings.{
  trim_space, trim_front, keep_unless, trim_back, trim_byte, to_upper, after_prefix,
}
use star_konflict.Session.Bundle.{
  default_scenario, default_volunteer, is_upper, is_digit, in_scenario, in_volunteer, dash_unless,
  sanitise, strip, or_default, unless_prefixed, scenario_part, volunteer_part, region_part,
  separator, three_digits, bundle_id, exactly, run_of, one_or_more, literal, at_end, matched,
  complete, valid_bundle_id,
}

-- All bytes of a text are in a class.
abbrev pub AllIn : (ℕ → Bool) → Bytes → Type 0
AllIn good = All (λ c. good c ≡ true)

module _ (good : ℕ → Bool) where
  sanitise-AllIn : good b'-' ≡ true → (s : Bytes) (run : Bool) → AllIn good (sanitise good s run)
  unfolding sanitise
  sanitise-AllIn h [] run = tt
  sanitise-AllIn h (c ∷ s) run = elim (Bool-cases (good c)) [
    | inl y ↦ rw (y, sanitise) (y, sanitise-AllIn h s false)
    | inr n ↦ rw (n, sanitise) (dashed run (sanitise good s true) (sanitise-AllIn h s true))
  ]
    where
      dashed : (r : Bool) (t : Bytes) → AllIn good t → AllIn good (dash_unless r t)
      dashed true t k = unfold dash_unless in k
      dashed false t k = unfold dash_unless in (h, k)

  trim_front-AllIn : (c : ℕ) (s : Bytes) → AllIn good s → AllIn good (trim_front c s)
  unfolding trim_front
  trim_front-AllIn c [] h = tt
  trim_front-AllIn c (x ∷ s) h = elim (Bool-cases (x == c)) [
    | inl y ↦ rw y (trim_front-AllIn c s h.1)
    | inr n ↦ rw n h
  ]

  keep_unless-AllIn :
      (c x : ℕ) (s : Bytes) → good x ≡ true → AllIn good s → AllIn good (keep_unless c x s)
  unfolding keep_unless
  keep_unless-AllIn c x [] h k = elim (Bool-cases (x == c)) [
    | inl y ↦ rw y tt
    | inr n ↦ rw n (h, tt)
  ]
  keep_unless-AllIn c x (y ∷ s) h k = (h, k)

  trim_back-AllIn : (c : ℕ) (s : Bytes) → AllIn good s → AllIn good (trim_back c s)
  unfolding trim_back
  trim_back-AllIn c [] h = tt
  trim_back-AllIn c (x ∷ s) h = keep_unless-AllIn c x _ h.0 (trim_back-AllIn c s h.1)

  or_default-AllIn : (d s : Bytes) → AllIn good d → AllIn good s → AllIn good (or_default d s)
  unfolding or_default
  or_default-AllIn d [] h k = h
  or_default-AllIn d (c ∷ s) h k = k

  -- What a contributor's text becomes.
  cleaned-AllIn :
      good b'-' ≡ true
      → (d s : Bytes) → AllIn good d
      → AllIn good (or_default d (trim_byte b'-' (sanitise good s false)))
  unfolding trim_byte
  cleaned-AllIn h d s k =
      or_default-AllIn d _ k
        (trim_back-AllIn b'-' _ (trim_front-AllIn b'-' _ (sanitise-AllIn h s false)))

  after_prefix-AllIn :
      (s t : Bytes) {r : Bytes} → after_prefix s t ≡ some r → AllIn good s → AllIn good r
  unfolding after_prefix
  after_prefix-AllIn s [] {r} e h = let same_text : s ≡ r = cc in rw⁻¹ same_text h
  after_prefix-AllIn [] (p ∷ t) e h = cc
  after_prefix-AllIn (c ∷ s) (p ∷ t) e h = elim (Bool-cases (c == p)) [
    | inl y ↦ after_prefix-AllIn s t (rw y at e) h.1
    | inr n ↦ cc (rw n at e)
  ]

  pub strip-AllIn : (s : Bytes) → AllIn good (strip good s)
  unfolding strip
  strip-AllIn [] = tt
  strip-AllIn (c ∷ s) = elim (Bool-cases (good c)) [
    | inl y ↦ rw y (y, strip-AllIn s)
    | inr n ↦ rw n (strip-AllIn s)
  ]

  run_of-AllIn :
      (s : Bytes) (c : ℕ) (r : Bytes)
      → good c ≡ false
      → AllIn good s
      → run_of good (s ++ (c ∷ r)) ≡ c ∷ r
  unfolding run_of
  run_of-AllIn [] c r h k = rw h
  run_of-AllIn (x ∷ s) c r h k = rw k.0 (run_of-AllIn s c r h k.1)

  one_or_more-AllIn :
      (s : Bytes) (c : ℕ) (r : Bytes)
      → good c ≡ false
      → AllIn good s
      → s ≢ []
      → one_or_more good (s ++ (c ∷ r)) ≡ some (c ∷ r)
  unfolding one_or_more
  one_or_more-AllIn [] c r h k e = absurd (e refl)
  one_or_more-AllIn (x ∷ s) c r h k e = rw k.0 (ap some (run_of-AllIn s c r h k.1))

or_default-ne-nil : (d s : Bytes) → d ≢ [] → or_default d s ≢ []
unfolding or_default
or_default-ne-nil d [] h = h
or_default-ne-nil d (c ∷ s) h = λ e. cc

exactly-digits : (d r : Bytes) (n : ℕ) → All IsDigit d → length d ≡ n → exactly n (d ++ r) ≡ some r
unfolding exactly
exactly-digits [] r zero h e = refl
exactly-digits [] r (suc n) h e = absurd (omega arith)
exactly-digits (c ∷ d) r zero h e = absurd (omega arith)
exactly-digits (c ∷ d) r (suc n) h e =
    let digit : is_digit c ≡ true = ground (arith, h.0) in
    rw digit (exactly-digits d r n h.1 (omega arith))

three_digits-IsDigit : (n : ℕ) → All IsDigit (three_digits n)
unfolding three_digits
three_digits-IsDigit n = zeros-IsDigit _ _ (decimal-IsDigit n)

length-three_digits : (n : ℕ) → n < 1000 → length (three_digits n) ≡ 3
unfolding three_digits
length-three_digits n h = omega (
  arith,
  length-append (replicate (3 - length (decimal n)) b'0') (decimal n),
  length-replicate {A = ℕ} (3 - length (decimal n)) b'0',
  length-decimal n h,
)

nil-ne-snoc : (xs : Bytes) (c : ℕ) → [] ≢ xs ++ c ∷ []
nil-ne-snoc [] c e = cc
nil-ne-snoc (x ∷ xs) c e = cc

keep_unless_end :
    (c x : ℕ) (t ys : Bytes) → ((zs : Bytes) → t ≢ zs ++ c ∷ []) → keep_unless c x t ≢ ys ++ c ∷ []
unfolding keep_unless
keep_unless_end c x [] ys h f = elim (Bool-cases (x == c)) [
  | inl y ↦ nil-ne-snoc ys c (rw y at f)
  | inr n ↦ single n ys (rw n at f)
]
  where
    single : (x == c) ≡ false → (zs : Bytes) → x ∷ [] ≢ zs ++ c ∷ []
    single n [] g = let e : x ≡ c = cc in absurd (ground arith)
    single n (z ∷ zs) g = nil-ne-snoc zs c (cc)
keep_unless_end c x (y ∷ t) [] h f = cc
keep_unless_end c x (y ∷ t) (z ∷ zs) h f = h zs (cc)

-- A text whose end is trimmed does not end in the byte trimmed.
trim_back_end : (c : ℕ) (s xs : Bytes) → trim_back c s ≢ xs ++ c ∷ []
unfolding trim_back
trim_back_end c [] xs e = nil-ne-snoc xs c e
trim_back_end c (x ∷ s) xs e = keep_unless_end c x (trim_back c s) xs (trim_back_end c s) e

after_prefix-append : (s t : Bytes) {r : Bytes} → after_prefix s t ≡ some r → s ≡ t ++ r
unfolding after_prefix
after_prefix-append s [] e = cc
after_prefix-append [] (p ∷ t) e = cc
after_prefix-append (c ∷ s) (p ∷ t) e = elim (Bool-cases (c == p)) [
  | inl y ↦
      let head : c ≡ p = ground arith in
      rw head (ap (λ x. p ∷ x) (after_prefix-append s t (rw y at e)))
  | inr n ↦ cc (rw n at e)
]

adhoc_some : default_scenario ≢ []
unfolding text
adhoc_some e = cc

adhoc_unprefixed : default_scenario ≢ text "SC-"
unfolding text
adhoc_unprefixed e = cc

dash_last : text "SC-" ≡ text "SC" ++ b'-' ∷ []
unfolding text
dash_last = refl

unless_prefixed-AllIn :
    (good : ℕ → Bool) (s t : Bytes)
    → AllIn good s
    → AllIn good (unless_prefixed s (after_prefix s t))
unfolding unless_prefixed
unless_prefixed-AllIn good s t h = elim (Option-cases (after_prefix s t)) [
  | inl none_found ↦ rw none_found h
  | inr (r, e) ↦ rw e (after_prefix-AllIn good s t e h)
]

scenario_ne_nil :
    (clean : Bytes)
    → clean ≢ []
    → clean ≢ text "SC-"
    → unless_prefixed clean (after_prefix clean (text "SC-")) ≢ []
unfolding unless_prefixed
scenario_ne_nil clean h k = by_prefix (after_prefix clean (text "SC-")) refl
  where
    by_prefix :
        (o : Option Bytes) → after_prefix clean (text "SC-") ≡ o → unless_prefixed clean o ≢ []
    by_prefix none e = h
    by_prefix (some r) e = λ f. k (
        after_prefix-append clean (text "SC-") e
        ∙ ap (λ x. text "SC-" ++ x) f
        ∙ append-nil (text "SC-"))

or_default_ne : (d s t : Bytes) → d ≢ t → s ≢ t → or_default d s ≢ t
unfolding or_default
or_default_ne d [] t h k = h
or_default_ne d (c ∷ s) t h k = k

scenario_part-ne-nil : (s : Bytes) → scenario_part s ≢ []
unfolding scenario_part trim_byte
scenario_part-ne-nil s =
    let cleaned =
      trim_back b'-' (trim_front b'-' (sanitise in_scenario (to_upper (trim_space s)) false)) in
    scenario_ne_nil (or_default default_scenario cleaned)
      (or_default-ne-nil default_scenario cleaned adhoc_some)
      (or_default_ne default_scenario cleaned (text "SC-") adhoc_unprefixed
        (λ e. trim_back_end b'-' _ (text "SC") (e ∙ dash_last)))

pub scenario_part-AllIn : (s : Bytes) → AllIn in_scenario (scenario_part s)
unfolding scenario_part text
scenario_part-AllIn s =
    unless_prefixed-AllIn in_scenario _ _
      (cleaned-AllIn in_scenario refl default_scenario _ (refl, (refl, (refl, (refl, (refl, tt))))))

pub volunteer_part-AllIn : (s : Bytes) → AllIn in_volunteer (volunteer_part s)
unfolding volunteer_part text
volunteer_part-AllIn s =
    cleaned-AllIn in_volunteer refl default_volunteer _
      (refl, (refl, (refl, (refl, (refl, (refl, (refl, (refl, (refl, tt)))))))))

volunteer_part-ne-nil : (s : Bytes) → volunteer_part s ≢ []
unfolding volunteer_part text
volunteer_part-ne-nil s = or_default-ne-nil default_volunteer _ (λ e. cc)

-- The text of a start time: eight digits, `T`, six digits, `Z`.
pub record IsStamp (start : Bytes) : Type 0 where
  pub date : Bytes
  pub clock : Bytes
  pub parts : start ≡ date ++ (b'T' ∷ (clock ++ b'Z' ∷ []))
  pub date_digits : All IsDigit date
  pub clock_digits : All IsDigit clock
  pub date_length : length date ≡ 8
  pub clock_length : length clock ≡ 6

stamped :
    (start tail : Bytes) (h : IsStamp start)
    → start ++ tail ≡ h.date ++ (b'T' ∷ (h.clock ++ (b'Z' ∷ tail)))
stamped start tail h =
    ap (λ s. s ++ tail) h.parts
    ∙ append_assoc h.date _ tail
    ∙ ap (λ s. h.date ++ (b'T' ∷ s)) (append_assoc h.clock (b'Z' ∷ []) tail)

-- Whatever text a contributor gives for the scenario, the volunteer and the region, the name of a
-- bundle with a sequence number below 1000 and a start time that is written as eight digits, `T`,
-- six digits and `Z` is accepted by `ValidBundleID`.
pub bundle_id-valid_bundle_id :
    (start scenario volunteer region : Bytes) (seq : ℕ)
    → IsStamp start
    → seq < 1000
    → valid_bundle_id (bundle_id start scenario volunteer region seq) ≡ true
unfolding valid_bundle_id complete at_end matched literal after_prefix bundle_id region_part
bundle_id-valid_bundle_id start scenario volunteer region seq h b =
    let digits = three_digits seq in
    let r = strip is_upper (to_upper (trim_space region)) in
    let v = volunteer_part volunteer in
    let s = scenario_part scenario in
    let after_volunteer = separator (r ++ separator digits) in
    let after_scenario = separator (v ++ after_volunteer) in
    let after_start = separator (s ++ after_scenario) in
    let six = exactly-digits h.clock (b'Z' ∷ after_start) 6 h.clock_digits h.clock_length in
    let eight =
      exactly-digits h.date (b'T' ∷ (h.clock ++ (b'Z' ∷ after_start))) 8 h.date_digits
        h.date_length in
    let scene =
      one_or_more-AllIn in_scenario s b'_' (b'_' ∷ (v ++ after_volunteer)) refl
        (scenario_part-AllIn scenario) (scenario_part-ne-nil scenario) in
    let who =
      one_or_more-AllIn in_volunteer v b'_' (b'_' ∷ (r ++ separator digits)) refl
        (volunteer_part-AllIn volunteer) (volunteer_part-ne-nil volunteer) in
    let where_at = run_of-AllIn is_upper r b'_' (b'_' ∷ digits) refl (strip-AllIn is_upper _) in
    let last =
      ap (exactly 3) (sym (append-nil digits))
      ∙ exactly-digits digits [] 3 (three_digits-IsDigit seq) (length-three_digits seq b) in
    rw (stamped start after_start h, eight, six, scene, who, where_at, last)
