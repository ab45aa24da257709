-- ===== src/Dashboard/Names.antt =====
-- The name of a bundle that sc-capture/internal/session/bundle.go builds, as `scenarioOf` of
-- sc-capture/cmd/sccov/main.go takes it apart.
use star_konflict.Base.{
  ℕ, ◌≡◌, ◌≢◌, refl, sym, ap, ◌∙◌, Bool, false, [], ◌∷◌, ◌++◌, Bytes, same, length, length-append,
  append-nil, append_assoc, arith,
}
use star_konflict.Base.Decimal.{Without, Without-append, digits-Without}
use star_konflict.Base.Strings.{to_upper, trim_space}
use star_konflict.Session.Bundle.{
  is_upper, in_scenario, in_volunteer, strip, scenario_part, volunteer_part, region_part, separator,
  three_digits, bundle_id,
}
use star_konflict.Session.Bundle.Valid.{
  AllIn, scenario_part-AllIn, volunteer_part-AllIn, strip-AllIn, IsStamp,
}
use star_konflict.Dashboard.{split_from, part_at, scenario_of}

-- A text in which no underscore stands before another or at the end.
abbrev Single : Bytes → Type 0
Single [] = Unit {0}
Single (c ∷ []) = c ≢ b'_'
Single (c ∷ d ∷ s) = (c ≡ b'_' → d ≢ b'_') × Single (d ∷ s)

both : (c d : ℕ) → (c ≡ b'_' → d ≢ b'_') → same (c ∷ d ∷ []) (b'_' ∷ b'_' ∷ []) ≡ false
unfolding same
both c d h = ground arith

split_from-other :
    (part : Bytes) (c d : ℕ) (s : Bytes)
    → same (c ∷ d ∷ []) (b'_' ∷ b'_' ∷ []) ≡ false
    → split_from part (c ∷ d ∷ s) ≡ split_from (part ++ c ∷ []) (d ∷ s)
unfolding split_from
split_from-other part c d s h = ground arith

split_from-Single :
    (p part rest : Bytes)
    → Single p
    → split_from part (p ++ separator rest) ≡ (part ++ p) ∷ split_from [] rest
split_from-Single [] part rest h =
    unfold split_from same in ap (λ t. t ∷ split_from [] rest) (sym (append-nil part))
split_from-Single (c ∷ []) part rest h =
    split_from-other part c b'_' (b'_' ∷ rest) (both c b'_' (λ e. absurd (h e)))
    ∙ split_from-Single [] (part ++ c ∷ []) rest tt
    ∙ ap (λ t. t ∷ split_from [] rest) (append-nil (part ++ c ∷ []))
split_from-Single (c ∷ d ∷ p) part rest h =
    split_from-other part c d (p ++ separator rest) (both c d h.0)
    ∙ split_from-Single (d ∷ p) (part ++ c ∷ []) rest h.1
    ∙ ap (λ t. t ∷ split_from [] rest) (append_assoc part (c ∷ []) (d ∷ p))

Without-Single : (s : Bytes) → Without b'_' s → Single s
Without-Single [] h = tt
Without-Single (c ∷ []) h = h.0
Without-Single (c ∷ d ∷ s) h = (λ e. absurd (h.0 e), Without-Single (d ∷ s) h.1)

AllIn-Without : (good : ℕ → Bool) → good b'_' ≡ false → (s : Bytes) → AllIn good s → Without b'_' s
AllIn-Without good e [] h = tt
AllIn-Without good e (c ∷ s) h = (λ f. cc (ap good f), AllIn-Without good e s h.1)

-- A text in front of one that has an underscore neither at its start nor anywhere else.
Single-start : (c : ℕ) (s : Bytes) → Without b'_' (c ∷ s) → Single (b'_' ∷ c ∷ s)
Single-start c s h = (λ e. h.0, Without-Single (c ∷ s) h)

start_Without : (start : Bytes) → IsStamp start → Without b'_' start
start_Without start h = rw h.parts (
    Without-append b'_' h.date _ (digits-Without b'_' h.date (λ d. omega (arith, d)) h.date_digits)
      (
        omega arith,
        Without-append b'_' h.clock _
            (digits-Without b'_' h.clock (λ d. omega (arith, d)) h.clock_digits) (omega arith, tt),
      ))

start_some : (start : Bytes) → IsStamp start → start ≢ []
start_some [] h e =
    omega (
      arith,
      ap length h.parts,
      length-append h.date (b'T' ∷ (h.clock ++ b'Z' ∷ [])),
      h.date_length,
    )
start_some (c ∷ s) h e = cc

prefix_Single :
    (start : Bytes) → Without b'_' start → start ≢ [] → Single (b'S' ∷ b'C' ∷ b'_' ∷ start)
prefix_Single [] h e = absurd (e refl)
prefix_Single (c ∷ s) h e =
    (λ f. absurd (omega (arith, f)), ((λ f. absurd (omega (arith, f))), Single-start c s h))

-- The dashboard takes the scenario and the region out of every name that `BundleID` builds, in the
-- form in which they stand there, whatever text a contributor gave and whatever the number is. The
-- start time is written as eight digits, `T`, six digits and `Z`.
pub scenario_of-bundle_id :
    (start scenario volunteer region : Bytes) (seq : ℕ)
    → IsStamp start
    → scenario_of (bundle_id start scenario volunteer region seq)
      ≡ (scenario_part scenario, region_part region)
unfolding scenario_of bundle_id part_at region_part
scenario_of-bundle_id start scenario volunteer region seq h =
    let r = strip is_upper (to_upper (trim_space region)) in
    let v = volunteer_part volunteer in
    let s = scenario_part scenario in
    let after_region = three_digits seq in
    let after_volunteer = r ++ separator after_region in
    let after_scenario = v ++ separator after_volunteer in
    let after_start = s ++ separator after_scenario in
    let first =
      split_from-Single (b'S' ∷ b'C' ∷ b'_' ∷ start) [] after_start
        (prefix_Single start (start_Without start h) (start_some start h)) in
    let second =
      split_from-Single s [] after_scenario
        (Without-Single s (AllIn-Without in_scenario refl s (scenario_part-AllIn scenario))) in
    let third =
      split_from-Single v [] after_volunteer
        (Without-Single v (AllIn-Without in_volunteer refl v (volunteer_part-AllIn volunteer))) in
    let fourth =
      split_from-Single r [] after_region
        (Without-Single r (AllIn-Without is_upper refl r (strip-AllIn is_upper _))) in
    rw (first, second, third, fourth)
