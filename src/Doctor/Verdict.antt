-- ===== src/Doctor/Verdict.antt =====
-- When the report of sc-capture/internal/doctor/doctor.go says that the host cannot capture.
use star_konflict.Base.{
  ℕ, ◌≡◌, refl, sym, ◌∙◌, Bool, true, false, not, ◌&&◌, ◌||◌, List, [], ◌∷◌, ◌++◌, Bytes, text,
  same, Option, none, some, if◌then◌else◌, ◌==◌, ◌/◌, ◌%◌, arith, Bool-cases, inl, inr,
}
use star_konflict.Doctor.{
  Severity, pass, warn, fail, InterfaceInfo, Detail, Check, add, is_fail, failed, effective_caps,
  have_raw, have_admin, check_capabilities, report_offloads, is_live, live_of, check_wanted,
  report_all, check_live, check_interfaces, check_clock, check_coverage_dir, check_client, Host,
  run, unresolved, uncreatable, unwritable, usable, Directory, is_up, is_down, no_carrier,
}

-- Capabilities that are known, without CAP_NET_RAW.
abbrev pub lacks_raw : Option ℕ → Bool
lacks_raw none = false
lacks_raw (some eff) = not (have_raw eff)

abbrev pub first_named : Bytes → List InterfaceInfo → Option InterfaceInfo
first_named want [] = none
first_named want (i ∷ is) = if same i.name want then some i else first_named want is

-- An interface that is up, with a carrier unless it is the loopback.
abbrev pub is_wire : Option InterfaceInfo → Bool
is_wire none = false
is_wire (some i) = i.up && (i.carrier || i.loopback)

abbrev pub any_live : List InterfaceInfo → Bool
any_live [] = false
any_live (i ∷ is) = is_live i || any_live is

-- There is a wire to capture on.
abbrev pub has_wire : Bytes → Option (List InterfaceInfo) → Bool
has_wire want none = false
has_wire [] (some is) = any_live is
has_wire (c ∷ want) (some is) = is_wire (first_named (c ∷ want) is)

or_false : (b : Bool) → (b || false) ≡ b
or_false true = refl
or_false false = refl

or_assoc : (a b c : Bool) → (a || (b || c)) ≡ ((a || b) || c)
or_assoc true b c = refl
or_assoc false b c = refl

failed-append :
    (r : List Check) (c : Check) → failed (r ++ c ∷ []) ≡ (failed r || is_fail c.severity)
unfolding failed
failed-append [] c = or_false (is_fail c.severity)
failed-append (d ∷ ds) c = rw (failed-append ds c) (or_assoc (is_fail d.severity) (failed ds) _)

-- A check is added to the verdict by its severity alone.
pub failed-add :
    (r : List Check) (n : Bytes) (s : Severity) (d : Detail)
    → failed (add r n s d) ≡ (failed r || is_fail s)
unfolding add
failed-add r n s d = failed-append r _

failed-pass : (r : List Check) (n : Bytes) (d : Detail) → failed (add r n pass d) ≡ failed r
failed-pass r n d = failed-add r n pass d ∙ unfold is_fail in or_false (failed r)

failed-warn : (r : List Check) (n : Bytes) (d : Detail) → failed (add r n warn d) ≡ failed r
failed-warn r n d = failed-add r n warn d ∙ unfold is_fail in or_false (failed r)

pub or_true : (b : Bool) → (b || true) ≡ true
or_true true = refl
or_true false = refl

failed-fail : (r : List Check) (n : Bytes) (d : Detail) → failed (add r n fail d) ≡ true
failed-fail r n d = failed-add r n fail d ∙ unfold is_fail in or_true (failed r)

failed-report_offloads :
    (r : List Check) (i : InterfaceInfo) (o : Bytes) → failed (report_offloads r i o) ≡ failed r
unfolding report_offloads
failed-report_offloads r i [] = refl
failed-report_offloads r i (c ∷ cs) = failed-warn r _ _

failed-report_all : (r : List Check) (is : List InterfaceInfo) → failed (report_all r is) ≡ failed r
unfolding report_all
failed-report_all r [] = refl
failed-report_all r (i ∷ is) =
    failed-report_all (report_offloads r i i.offloads) is ∙ failed-report_offloads r i i.offloads

failed-check_capabilities : (caps : Option ℕ) → failed (check_capabilities [] caps) ≡ lacks_raw caps
unfolding check_capabilities
failed-check_capabilities none = failed-warn [] _ _ ∙ unfold failed in refl
failed-check_capabilities (some eff) = elim (Bool-cases (have_raw eff)) [
  | inr n ↦ rw n (failed-fail [] _ _)
  | inl y ↦ rw y (elim (Bool-cases (have_admin eff)) [
    | inl a ↦ rw a (failed-pass [] _ _ ∙ unfold failed in refl)
    | inr b ↦ rw b (failed-warn [] _ _ ∙ unfold failed in refl)
  ])
]

failed-check_wanted :
    (r : List Check) (want : Bytes) (is : List InterfaceInfo)
    → failed (check_wanted r want is) ≡ (failed r || not (is_wire (first_named want is)))
unfolding check_wanted
failed-check_wanted r want [] = failed-fail r _ _ ∙ sym (or_true (failed r))
failed-check_wanted r want (i ∷ is) =
    let next = failed-check_wanted r want is in
    let down = failed-fail r (text "interfaces") (is_down want) in
    let bare = failed-fail r (text "interfaces") (no_carrier want) in
    let good =
      failed-report_offloads (add r (text "interfaces") pass (is_up want)) i i.offloads
      ∙ failed-pass r (text "interfaces") (is_up want) in
    ground (arith, next, down, bare, good, or_true (failed r), or_false (failed r))

abbrev has_some : List InterfaceInfo → Bool
has_some [] = false
has_some (_ ∷ _) = true

has_some-live_of : (is : List InterfaceInfo) → has_some (live_of is) ≡ any_live is
unfolding live_of
has_some-live_of [] = refl
has_some-live_of (i ∷ is) = elim (Bool-cases (is_live i)) [
  | inl y ↦ rw y
  | inr n ↦ rw n (has_some-live_of is)
]

failed-check_live :
    (r : List Check) (live : List InterfaceInfo)
    → failed (check_live r live) ≡ (failed r || not (has_some live))
unfolding check_live
failed-check_live r [] = failed-fail r _ _ ∙ sym (or_true (failed r))
failed-check_live r (i ∷ []) =
    failed-report_offloads _ i i.offloads ∙ failed-pass r _ _ ∙ sym (or_false (failed r))
failed-check_live r (i ∷ j ∷ is) =
    failed-report_all _ (i ∷ j ∷ is) ∙ failed-warn r _ _ ∙ sym (or_false (failed r))

failed-check_interfaces :
    (r : List Check) (want : Bytes) (is : Option (List InterfaceInfo))
    → failed (check_interfaces r want is) ≡ (failed r || not (has_wire want is))
unfolding check_interfaces
failed-check_interfaces r want none = failed-fail r _ _ ∙ sym (or_true (failed r))
failed-check_interfaces r [] (some is) = rw (sym (has_some-live_of is)) (failed-check_live r _)
failed-check_interfaces r (c ∷ want) (some is) = failed-check_wanted r (c ∷ want) is

failed-check_clock : (r : List Check) (c : Option (ℕ × ℕ)) → failed (check_clock r c) ≡ failed r
unfolding check_clock
failed-check_clock r none = failed-warn r _ _
failed-check_clock r (some (status, state)) =
    elim (Bool-cases ((status / 64 % 2 == 1) || state == 5)) [
      | inl y ↦ rw y (failed-warn r _ _)
      | inr n ↦ rw n (failed-pass r _ _)
    ]

failed-check_coverage_dir :
    (r : List Check) (d : Directory) → failed (check_coverage_dir r d) ≡ failed r
unfolding check_coverage_dir
failed-check_coverage_dir r unresolved = failed-warn r _ _
failed-check_coverage_dir r uncreatable = failed-warn r _ _
failed-check_coverage_dir r unwritable = failed-warn r _ _
failed-check_coverage_dir r usable = failed-pass r _ _

failed-check_client :
    (r : List Check) (c : Option (Bytes × Bytes)) → failed (check_client r c) ≡ failed r
unfolding check_client
failed-check_client r none = failed-warn r _ _
failed-check_client r (some (summary, path)) = failed-pass r _ _

-- The report fails exactly when the capabilities are known and lack CAP_NET_RAW, or there is no
-- wire: no interface is live, or, where one is named, the first of that name is missing or down or
-- neither has a carrier nor is the loopback. The clock, the coverage directory and the game client
-- never fail it, and capabilities that cannot be read do not either.
pub failed-run :
    (h : Host) (iface revision : Bytes)
    → failed (run h iface revision)
      ≡ (lacks_raw (effective_caps h.status_file) || not (has_wire iface h.interfaces))
unfolding run
failed-run h iface revision =
    failed-pass _ _ _
    ∙ failed-check_client _ h.client
    ∙ failed-check_coverage_dir _ h.directory
    ∙ failed-check_clock _ h.clock
    ∙ failed-check_interfaces _ iface h.interfaces
    ∙ rw (failed-check_capabilities (effective_caps h.status_file))
