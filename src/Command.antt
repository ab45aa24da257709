-- ===== src/Command.antt =====
-- What the commands of sc-capture/cmd/sccap decide before they start, and their exit codes
-- (sc-capture/internal/exitcode). The values of the flags are given; what `ParseSize` makes of a
-- size is an argument, `none` for its error.
pub mod Guards
use star_konflict.Base.{
  ℕ, Bool, true, false, not, ◌&&◌, ◌||◌, List, [], ◌∷◌, ◌++◌, Bytes, text, same, Option, none, some,
  if◌then◌else◌, leb, map,
}
use star_konflict.Base.Map.{lookup, insert, bytes_eq}
use star_konflict.Doctor.{InterfaceInfo, live_of, failed, run, Host}

abbrev pub code_ok : ℕ
code_ok = 0

abbrev pub code_usage : ℕ
code_usage = 1

abbrev pub code_verify_failed : ℕ
code_verify_failed = 2

abbrev pub code_no_capability : ℕ
code_no_capability = 3

abbrev pub code_disk_floor : ℕ
code_disk_floor = 4

abbrev pub code_schema_unreadable : ℕ
code_schema_unreadable = 5

-- The errors of `resolveInterfaces`.
pub data Resolved : Type 0 where
  selected : List InterfaceInfo → Resolved
  not_enumerated : Resolved
  no_such_interface interface_down : Bytes → Resolved
  none_live : Resolved
  ambiguous : List Bytes → Resolved

unfoldable pub by_name :
    List InterfaceInfo → List (Bytes × InterfaceInfo) → List (Bytes × InterfaceInfo)
by_name [] m = m
by_name (i ∷ is) m = by_name is (insert i.name i m)

unfoldable pub select_requested :
    List (Bytes × InterfaceInfo) → List Bytes → List InterfaceInfo → Resolved
select_requested m [] out = selected out
select_requested m (n ∷ ns) out = elim (lookup n m) [
  | none ↦ no_such_interface n
  | some i ↦ elim i.up [ true ↦ select_requested m ns (out ++ i ∷ []) | false ↦ interface_down n ]
]

unfoldable pub select_live : List InterfaceInfo → Resolved
select_live [] = none_live
select_live (i ∷ []) = selected (i ∷ [])
select_live (i ∷ j ∷ is) = ambiguous (map (λ k. k.name) (i ∷ j ∷ is))

unfoldable pub resolve_interfaces : List Bytes → Option (List InterfaceInfo) → Resolved
resolve_interfaces requested none = not_enumerated
resolve_interfaces [] (some all) = select_live (live_of all)
resolve_interfaces (n ∷ ns) (some all) = select_requested (by_name all []) (n ∷ ns) []

-- `strings.Join(ifaces, "")`.
unfoldable pub joined : List Bytes → Bytes
joined [] = []
joined (n ∷ ns) = n ++ joined ns

-- The flags that `runCapture` tests.
pub record CaptureFlags : Type 0 where
  pub parsed : Bool
  pub relay : Bool
  pub filter : Bytes
  pub min_free : Option ℕ
  pub floor : Option ℕ
  pub ifaces : List Bytes

-- How `runCapture` goes on: it exits with a code, or captures on interfaces.
pub data Start : Type 0 where
  exits : ℕ → Start
  captures : List InterfaceInfo → ℕ → ℕ → Start

unfoldable pub on_resolved : ℕ → ℕ → Resolved → Start
on_resolved min_free floor (selected is) = captures is min_free floor
on_resolved min_free floor _ = exits code_usage

unfoldable pub with_sizes : Host → Bytes → CaptureFlags → Option ℕ → Option ℕ → Start
with_sizes h revision f none floor = exits code_usage
with_sizes h revision f (some m) none = exits code_usage
with_sizes h revision f (some m) (some l) =
    if leb m l
    then exits code_usage
    else if failed (run h (joined f.ifaces) revision)
    then exits code_no_capability
    else on_resolved m l (resolve_interfaces f.ifaces h.interfaces)

unfoldable pub no_bytes : Bytes → Bool
no_bytes [] = true
no_bytes (_ ∷ _) = false

-- `runCapture` up to `captureSession`.
unfoldable pub run_capture : Host → Bytes → CaptureFlags → Start
run_capture h revision f =
    if not f.parsed
    then exits code_usage
    else if f.relay
    then exits code_usage
    else if not (no_bytes f.filter)
    then exits code_usage
    else with_sizes h revision f f.min_free f.floor

-- `runDoctor` without `--watch`.
unfoldable pub doctor_exit : Host → Bytes → Bytes → ℕ
doctor_exit h iface revision = if failed (run h iface revision) then code_no_capability else code_ok
