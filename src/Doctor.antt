-- ===== src/Doctor.antt =====
-- sc-capture/internal/doctor/doctor.go over what the host answers. The texts of a check's detail and
-- remedy are a constructor of `Detail` with the arguments of their formats.
pub mod Verdict
use star_konflict.Base.{
  ℕ, zero, suc, ◌+◌, ◌-◌, ◌*◌, ◌/◌, ◌%◌, Bool, true, false, not, ◌&&◌, ◌||◌, List, [], ◌∷◌, ◌++◌,
  Bytes, text, same, Option, none, some, if◌then◌else◌, ◌==◌, leb, ltb, map, u64_mod,
}
use star_konflict.Base.Strings.{scan, after_prefix, trim_space}

pub data Severity : Type 0 where
  pass warn fail : Severity

unfoldable pub severity_text : Severity → Bytes
severity_text warn = text "WARN"
severity_text fail = text "FAIL"
severity_text pass = text "OK"

-- One candidate interface.
pub record InterfaceInfo : Type 0 where
  pub name : Bytes
  pub up : Bool
  pub carrier : Bool
  pub loopback : Bool
  pub offloads : Bytes

pub data Detail : Type 0 where
  caps_unreadable : Detail
  both_caps raw_only no_raw : Detail
  cannot_enumerate : Detail
  is_down no_carrier is_up no_such : Bytes → Detail
  no_live : Detail
  one_live : Bytes → Detail
  several_live : List Bytes → Detail
  offloads_on : Bytes → Bytes → Detail
  no_adjtimex unsynchronised disciplined : Detail
  no_directory cannot_create not_writable writable : Detail
  no_client : Detail
  client_found : Bytes → Bytes → Detail
  tables_revision : Bytes → Detail

pub record Check : Type 0 where
  pub name : Bytes
  pub severity : Severity
  pub status : Bytes
  pub detail : Detail

-- `r.add`.
unfoldable pub add : List Check → Bytes → Severity → Detail → List Check
add r name sev detail =
    r ++ record { name = name; severity = sev; status = severity_text sev; detail = detail } ∷ []

unfoldable pub is_fail : Severity → Bool
is_fail fail = true
is_fail _ = false

unfoldable pub failed : List Check → Bool
failed [] = false
failed (c ∷ cs) = is_fail c.severity || failed cs

-- `strconv.ParseUint(s, 16, 64)`.
unfoldable pub hex_value : ℕ → Option ℕ
hex_value c =
    if leb b'0' c && leb c b'9'
    then some (c - b'0')
    else if leb b'a' c && leb c b'f'
    then some (c - b'a' + 10)
    else if leb b'A' c && leb c b'F'
    then some (c - b'A' + 10)
    else none

unfoldable pub hex_from : Bytes → ℕ → Option ℕ
hex_from [] acc = if ltb acc u64_mod then some acc else none
hex_from (c ∷ cs) acc = elim (hex_value c) [ none ↦ none | some d ↦ hex_from cs (acc * 16 + d) ]

unfoldable pub parse_hex : Bytes → Option ℕ
parse_hex [] = none
parse_hex (c ∷ cs) = hex_from (c ∷ cs) 0

-- `effectiveCaps` of /proc/self/status; `none` is any of its errors.
unfoldable pub caps_in : List Bytes → Option ℕ
caps_in [] = none
caps_in (l ∷ ls) = elim (after_prefix l (text "CapEff:")) [
  | none ↦ caps_in ls
  | some hex ↦ parse_hex (trim_space hex)
]

unfoldable pub effective_caps : Option Bytes → Option ℕ
effective_caps none = none
effective_caps (some b) = caps_in (scan b).0

-- `eff&(1<<13) != 0` and `eff&(1<<12) != 0`.
abbrev pub have_raw : ℕ → Bool
have_raw eff = eff / 8192 % 2 == 1

abbrev pub have_admin : ℕ → Bool
have_admin eff = eff / 4096 % 2 == 1

unfoldable pub check_capabilities : List Check → Option ℕ → List Check
check_capabilities r none = add r (text "capabilities") warn caps_unreadable
check_capabilities r (some eff) =
    if have_raw eff
    then (if have_admin eff
        then add r (text "capabilities") pass both_caps
        else add r (text "capabilities") warn raw_only)
    else add r (text "capabilities") fail no_raw

unfoldable pub report_offloads : List Check → InterfaceInfo → Bytes → List Check
report_offloads r i [] = r
report_offloads r i (c ∷ cs) =
    add r (text "offloads (" ++ (i.name ++ text ")")) warn (offloads_on i.name (c ∷ cs))

abbrev pub is_live : InterfaceInfo → Bool
is_live i = i.up && (i.carrier && not i.loopback)

unfoldable pub live_of : List InterfaceInfo → List InterfaceInfo
live_of [] = []
live_of (i ∷ is) = if is_live i then i ∷ live_of is else live_of is

-- The first interface with the name that is wanted.
unfoldable pub check_wanted : List Check → Bytes → List InterfaceInfo → List Check
check_wanted r want [] = add r (text "interfaces") fail (no_such want)
check_wanted r want (i ∷ is) =
    let rest = check_wanted r want is in
    if same i.name want
    then (if not i.up
        then add r (text "interfaces") fail (is_down want)
        else if not i.carrier && not i.loopback
        then add r (text "interfaces") fail (no_carrier want)
        else report_offloads (add r (text "interfaces") pass (is_up want)) i i.offloads)
    else rest

unfoldable pub report_all : List Check → List InterfaceInfo → List Check
report_all r [] = r
report_all r (i ∷ is) = report_all (report_offloads r i i.offloads) is

unfoldable pub check_live : List Check → List InterfaceInfo → List Check
check_live r [] = add r (text "interfaces") fail no_live
check_live r (i ∷ []) =
    report_offloads (add r (text "interfaces") pass (one_live i.name)) i i.offloads
check_live r (i ∷ j ∷ is) =
    report_all (add r (text "interfaces") warn (several_live (map (λ k. k.name) (i ∷ j ∷ is))))
      (i ∷ j ∷ is)

-- `none` for the list is its error.
unfoldable pub check_interfaces : List Check → Bytes → Option (List InterfaceInfo) → List Check
check_interfaces r want none = add r (text "interfaces") fail cannot_enumerate
check_interfaces r [] (some is) = check_live r (live_of is)
check_interfaces r (c ∷ want) (some is) = check_wanted r (c ∷ want) is

-- What `adjtimex` returns: the status word and the state.
unfoldable pub check_clock : List Check → Option (ℕ × ℕ) → List Check
check_clock r none = add r (text "clock") warn no_adjtimex
check_clock r (some (status, state)) =
    if (status / 64 % 2 == 1) || state == 5
    then add r (text "clock") warn unsynchronised
    else add r (text "clock") pass disciplined

-- How the coverage directory is found.
pub data Directory : Type 0 where
  unresolved uncreatable unwritable usable : Directory

unfoldable pub check_coverage_dir : List Check → Directory → List Check
check_coverage_dir r unresolved = add r (text "coverage store") warn no_directory
check_coverage_dir r uncreatable = add r (text "coverage store") warn cannot_create
check_coverage_dir r unwritable = add r (text "coverage store") warn not_writable
check_coverage_dir r usable = add r (text "coverage store") pass writable

-- The client, as its summary and its path.
unfoldable pub check_client : List Check → Option (Bytes × Bytes) → List Check
check_client r none = add r (text "game client") warn no_client
check_client r (some (summary, path)) = add r (text "game client") pass (client_found summary path)

-- What the host answers to the checks.
pub record Host : Type 0 where
  pub status_file : Option Bytes
  pub interfaces : Option (List InterfaceInfo)
  pub clock : Option (ℕ × ℕ)
  pub directory : Directory
  pub client : Option (Bytes × Bytes)

-- `Run`.
unfoldable pub run : Host → Bytes → Bytes → List Check
run h iface revision =
    let a = check_capabilities [] (effective_caps h.status_file) in
    let b = check_interfaces a iface h.interfaces in
    let c = check_clock b h.clock in
    let d = check_coverage_dir c h.directory in
    let e = check_client d h.client in
    add e (text "protocol tables") pass (tables_revision revision)
