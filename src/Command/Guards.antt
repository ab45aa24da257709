-- ===== src/Command/Guards.antt =====
-- When `runCapture` and `runDoctor` of sc-capture/cmd/sccap go on, and on which interfaces.
use mathlib.Core.Path.{subst}
use star_konflict.Base.{
  ℕ, ◌<◌, ◌≡◌, ◌≢◌, refl, sym, ap, ◌∙◌, Bool, true, false, not, ◌||◌, List, [], ◌∷◌, Bytes, same,
  same_iff, append-nil, All, Option, none, some, if◌then◌else◌, leb, arith, Bool-cases,
  Option-cases, inl, inr,
}
use star_konflict.Base.Map.{lookup, insert, bytes_eq, lookup-insert}
use star_konflict.Doctor.{is_live, InterfaceInfo, live_of, failed, run, Host, effective_caps}
use star_konflict.Doctor.Verdict.{lacks_raw, first_named, is_wire, has_wire, or_true, failed-run}
use star_konflict.Command.{
  code_ok, code_usage, code_no_capability, Resolved, selected, not_enumerated, no_such_interface,
  interface_down, none_live, ambiguous, by_name, select_requested, select_live, resolve_interfaces,
  joined, CaptureFlags, exits, captures, on_resolved, with_sizes, no_bytes, run_capture,
  doctor_exit,
}

-- The flags pass every test that `runCapture` makes before it looks at the host.
pub record Accepted (f : CaptureFlags) (m l : ℕ) : Type 0 where
  pub parsed : f.parsed ≡ true
  pub relay : f.relay ≡ false
  pub filter : f.filter ≡ []
  pub min_free : f.min_free ≡ some m
  pub floor : f.floor ≡ some l
  pub below : l < m

-- The flags' tests passed, the host and the interfaces decide.
run_capture-Accepted :
    (h : Host) (revision : Bytes) (f : CaptureFlags) (m l : ℕ)
    → Accepted f m l
    → run_capture h revision f ≡ (
        if failed (run h (joined f.ifaces) revision)
        then exits code_no_capability
        else on_resolved m l (resolve_interfaces f.ifaces h.interfaces))
unfolding run_capture with_sizes no_bytes
run_capture-Accepted h revision f m l a =
    let below : leb m l ≡ false = ground (arith, a.below) in
    rw (a.parsed, a.relay, a.filter, a.min_free, a.floor) (rw (below))

-- Each interface has a name of its own.
abbrev pub Distinct : List InterfaceInfo → Type 0
Distinct [] = Unit
Distinct (i ∷ is) = (first_named i.name is ≡ none) × Distinct is

lookup-by_name-none :
    (n : Bytes) (is : List InterfaceInfo) (m : List (Bytes × InterfaceInfo))
    → first_named n is ≡ none
    → lookup n (by_name is m) ≡ lookup n m
unfolding by_name
lookup-by_name-none n [] m h = refl
lookup-by_name-none n (i ∷ is) m h = elim (Bool-cases (same i.name n)) [
  | inl y ↦ ground (arith, h, y)
  | inr k ↦
      let later : first_named n is ≡ none = ground (arith, h, k) in
      lookup-by_name-none n is (insert i.name i m) later ∙ lookup-insert i.name n i m ∙ rw k
]

lookup-by_name :
    (n : Bytes) (i : InterfaceInfo) (is : List InterfaceInfo) (m : List (Bytes × InterfaceInfo))
    → Distinct is
    → first_named n is ≡ some i
    → lookup n (by_name is m) ≡ some i
unfolding by_name
lookup-by_name n i [] m d h = cc
lookup-by_name n i (j ∷ is) m d h = elim (Bool-cases (same j.name n)) [
  | inr k ↦
      let later : first_named n is ≡ some i = ground (arith, h, k) in
      lookup-by_name n i is (insert j.name j m) d.1 later
  | inl y ↦
      let here : j ≡ i = ground (arith, h, y) in
      let alone : first_named n is ≡ none =
        subst (λ k. first_named k is ≡ none) ((same_iff j.name n).0 y) d.0 in
      lookup-by_name-none n is (insert j.name j m) alone
      ∙ lookup-insert j.name n j m
      ∙ rw y (ap some here)
]

-- The doctor's verdict on an interface that is named is that a wire of that name was found.
failed-named :
    (h : Host) (c : ℕ) (cs revision : Bytes)
    → failed (run h (c ∷ cs) revision) ≡ false
    → (all : List InterfaceInfo) × (i : InterfaceInfo) × (h.interfaces ≡ some all)
      × (first_named (c ∷ cs) all ≡ some i)
      × (i.up ≡ true)
failed-named h c cs revision e =
    wire h.interfaces
      (ok (lacks_raw (effective_caps h.status_file)) _ (sym (failed-run h (c ∷ cs) revision) ∙ e))
  where
    ok : (a b : Bool) → (a || not b) ≡ false → b ≡ true
    ok true b g = cc
    ok false true g = refl
    ok false false g = cc

    wire :
        (o : Option (List InterfaceInfo))
        → has_wire (c ∷ cs) o ≡ true
        → (all : List InterfaceInfo) × (i : InterfaceInfo) × (o ≡ some all)
          × (first_named (c ∷ cs) all ≡ some i)
          × (i.up ≡ true)
    wire none g = cc
    wire (some all) g = elim (Option-cases (first_named (c ∷ cs) all)) [
      | inl n ↦ let no_wire : false ≡ true = ap is_wire (sym n) ∙ g in cc
      | inr (i, y) ↦
          let is_ok : is_wire (some i) ≡ true = ap is_wire (sym y) ∙ g in
          (all, i, refl, y, ground (arith, is_ok))
    ]

resolve_interfaces-named :
    (c : ℕ) (cs : Bytes) (all : List InterfaceInfo) (i : InterfaceInfo)
    → Distinct all
    → first_named (c ∷ cs) all ≡ some i
    → i.up ≡ true
    → resolve_interfaces ((c ∷ cs) ∷ []) (some all) ≡ selected (i ∷ [])
unfolding resolve_interfaces select_requested
resolve_interfaces-named c cs all i d y up =
    let picked : lookup (c ∷ cs) (by_name all []) ≡ some i = lookup-by_name (c ∷ cs) i all [] d y in
    ground (arith, picked, up)

first_named-name :
    (n : Bytes) (i : InterfaceInfo) (is : List InterfaceInfo)
    → first_named n is ≡ some i
    → i.name ≡ n
first_named-name n i [] h = cc
first_named-name n i (j ∷ is) h = elim (Bool-cases (same j.name n)) [
  | inr k ↦ first_named-name n i is (ground (arith, h, k))
  | inl y ↦
      let here : j ≡ i = ground (arith, h, y) in
      ap (λ x. x.name) (sym here) ∙ (same_iff j.name n).0 y
]

-- Where the flags pass their own tests (parsed, no relay, no filter, the floor below the other
-- size), one interface is named, the host's interfaces have distinct names, and the doctor accepts
-- the one that is named, the capture starts, on the one interface of that name, which is up.
pub doctor_exit-captures :
    (h : Host) (c : ℕ) (cs revision : Bytes) (f : CaptureFlags) (m l : ℕ)
    → ((all : List InterfaceInfo) → h.interfaces ≡ some all → Distinct all)
    → Accepted f m l
    → f.ifaces ≡ (c ∷ cs) ∷ []
    → doctor_exit h (c ∷ cs) revision ≡ code_ok
    → (i : InterfaceInfo) × (i.name ≡ c ∷ cs)
      × (i.up ≡ true)
      × (run_capture h revision f ≡ captures (i ∷ []) m l)
unfolding doctor_exit joined on_resolved
doctor_exit-captures h c cs revision f m l distinct a only e =
    let ok : failed (run h (c ∷ cs) revision) ≡ false =
      unfold code_ok code_no_capability in accepts _ e in
    let (all, i, is, y, up) = failed-named h c cs revision ok in
    (
      i,
      first_named-name (c ∷ cs) i all y,
      up,
      start all i is (resolve_interfaces-named c cs all i (distinct all is) y up) ok,
    )
  where
    start :
        (all : List InterfaceInfo) (i : InterfaceInfo)
        → h.interfaces ≡ some all
        → resolve_interfaces ((c ∷ cs) ∷ []) (some all) ≡ selected (i ∷ [])
        → failed (run h (c ∷ cs) revision) ≡ false
        → run_capture h revision f ≡ captures (i ∷ []) m l
    start all i is picked ok =
        run_capture-Accepted h revision f m l a
        ∙ rw only (
            rw (append-nil (c ∷ cs), ok)
              (ap (λ o. on_resolved m l (resolve_interfaces ((c ∷ cs) ∷ []) o)) is
                ∙ rw picked refl))

    accepts : (b : Bool) → (if b then code_no_capability else code_ok) ≡ 0 → b ≡ false
    accepts false g = refl
    accepts true g = absurd (omega (arith, g))

on_resolved-selected :
    (m l a b : ℕ) (is : List InterfaceInfo) (r : Resolved)
    → on_resolved a b r ≡ captures is m l
    → r ≡ selected is
unfolding on_resolved
on_resolved-selected m l a b is (selected js) e = cc
on_resolved-selected m l a b is not_enumerated e = cc
on_resolved-selected m l a b is (no_such_interface n) e = cc
on_resolved-selected m l a b is (interface_down n) e = cc
on_resolved-selected m l a b is none_live e = cc
on_resolved-selected m l a b is (ambiguous ns) e = cc

with_sizes-selected :
    (h : Host) (revision : Bytes) (f : CaptureFlags) (is : List InterfaceInfo) (m l : ℕ)
    (min_free floor : Option ℕ)
    → with_sizes h revision f min_free floor ≡ captures is m l
    → resolve_interfaces f.ifaces h.interfaces ≡ selected is
unfolding with_sizes
with_sizes-selected h revision f is m l none floor e = cc
with_sizes-selected h revision f is m l (some a) none e = cc
with_sizes-selected h revision f is m l (some a) (some b) e =
    passed (leb a b) (failed (run h (joined f.ifaces) revision)) e
  where
    passed :
        (x y : Bool)
        → (if x
            then exits code_usage
            else if y
            then exits code_no_capability
            else on_resolved a b (resolve_interfaces f.ifaces h.interfaces))
          ≡ captures is m l
        → resolve_interfaces f.ifaces h.interfaces ≡ selected is
    passed true y g = cc
    passed false true g = cc
    passed false false g = on_resolved-selected m l a b is _ g

run_capture-selected :
    (h : Host) (revision : Bytes) (f : CaptureFlags) (is : List InterfaceInfo) (m l : ℕ)
    → run_capture h revision f ≡ captures is m l
    → resolve_interfaces f.ifaces h.interfaces ≡ selected is
unfolding run_capture
run_capture-selected h revision f is m l e = passed f.parsed f.relay (no_bytes f.filter) e
  where
    passed :
        (x y z : Bool)
        → (if not x
            then exits code_usage
            else if y
            then exits code_usage
            else if not z
            then exits code_usage
            else with_sizes h revision f f.min_free f.floor)
          ≡ captures is m l
        → resolve_interfaces f.ifaces h.interfaces ≡ selected is
    passed false y z g = cc
    passed true true z g = cc
    passed true false false g = cc
    passed true false true g = with_sizes-selected h revision f is m l f.min_free f.floor g

select_live-selected :
    (live is : List InterfaceInfo)
    → select_live live ≡ selected is
    → (i : InterfaceInfo) × (live ≡ i ∷ []) × (is ≡ i ∷ [])
unfolding select_live
select_live-selected [] is e = cc
select_live-selected (i ∷ []) is e = (i, refl, cc)
select_live-selected (i ∷ j ∷ js) is e = cc

live_of-loopback : (is : List InterfaceInfo) → All (λ k. k.loopback ≡ false) (live_of is)
unfolding live_of
live_of-loopback [] = tt
live_of-loopback (i ∷ is) = elim (Bool-cases (is_live i)) [
  | inl y ↦ rw y (ground (arith, y), live_of-loopback is)
  | inr n ↦ rw n (live_of-loopback is)
]

-- Where no interface is named, a capture starts only if exactly one is live, and it captures on
-- that one and no other: not on the loopback.
pub run_capture_unnamed :
    (h : Host) (revision : Bytes) (f : CaptureFlags) (is : List InterfaceInfo) (m l : ℕ)
    → f.ifaces ≡ []
    → run_capture h revision f ≡ captures is m l
    → (all : List InterfaceInfo) × (i : InterfaceInfo) × (h.interfaces ≡ some all)
      × (live_of all ≡ i ∷ [])
      × (is ≡ i ∷ [])
      × (i.loopback ≡ false)
unfolding resolve_interfaces
run_capture_unnamed h revision f is m l none_named e = alone h.interfaces (
    ap (λ n. resolve_interfaces n h.interfaces) (sym none_named)
    ∙ run_capture-selected h revision f is m l e)
  where
    alone :
        (o : Option (List InterfaceInfo))
        → resolve_interfaces [] o ≡ selected is
        → (all : List InterfaceInfo) × (i : InterfaceInfo) × (o ≡ some all)
          × (live_of all ≡ i ∷ [])
          × (is ≡ i ∷ [])
          × (i.loopback ≡ false)
    alone none g = cc
    alone (some all) g =
        let (i, x, y) = select_live-selected (live_of all) is g in
        let outside = subst (All (λ k. k.loopback ≡ false)) x (live_of-loopback all) in
        (all, i, refl, x, y, outside.0)

-- Where the flags pass their own tests and the names of the flags `--interface`, run together,
-- are not empty and no interface has that name, the capture is refused as a missing capability,
-- whatever interfaces there are of the names themselves: that is what a repeated flag comes to.
pub run_capture-joined :
    (h : Host) (revision : Bytes) (f : CaptureFlags) (m l : ℕ) (all : List InterfaceInfo)
    → Accepted f m l
    → joined f.ifaces ≢ []
    → h.interfaces ≡ some all
    → first_named (joined f.ifaces) all ≡ none
    → run_capture h revision f ≡ exits code_no_capability
run_capture-joined h revision f m l all a some_name is unknown =
    run_capture-Accepted h revision f m l a ∙ rw (refused (joined f.ifaces) some_name unknown)
  where
    refused :
        (want : Bytes)
        → want ≢ []
        → first_named want all ≡ none
        → failed (run h want revision) ≡ true
    refused [] ne k = absurd (ne refl)
    refused (c ∷ cs) ne k =
        failed-run h (c ∷ cs) revision
        ∙ rw (is, k) (or_true (lacks_raw (effective_caps h.status_file)))
