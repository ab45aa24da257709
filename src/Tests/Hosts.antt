-- ===== src/Tests/Hosts.antt =====
-- The game client, the doctor's report and the start of a capture, on concrete machines.
use star_konflict.Base.{
  ℕ, ◌≡◌, ◌≢◌, refl, true, false, List, [], ◌∷◌, ◌++◌, Bytes, text, same, Option, none, some, arith,
  ◌||◌, not,
}
use star_konflict.Base.Decimal.{Without}
use star_konflict.Base.Strings.{
  split_byte, trim_space, trim_left, trim_right, keep_before, cut, cut_at, lower,
}
use mathlib.Core.Path.{subst}
use star_konflict.Client.{detect, Install, tildify, kv_line, with_key, with_value, quoted, closed}
use star_konflict.Client.Close.{AllAlike, alike, owners}
use star_konflict.Client.Private.{detect-same}
use star_konflict.Client.Home.{path_of, tildify_hides}
use star_konflict.Doctor.{
  InterfaceInfo, Host, usable, run, failed, live_of, effective_caps, check_capabilities,
  check_interfaces, check_wanted, check_live, report_offloads, check_clock, check_coverage_dir,
  check_client, add, is_fail,
}
use star_konflict.Doctor.Verdict.{failed-run, lacks_raw, has_wire, first_named}
use star_konflict.Command.{
  CaptureFlags, joined, with_sizes, no_bytes, resolve_interfaces, select_live, on_resolved,
  captures, exits, run_capture, doctor_exit, code_no_capability, code_ok,
}
use star_konflict.Command.Guards.{
  Accepted, Distinct, doctor_exit-captures, run_capture_unnamed, run_capture-joined,
}

abbrev manifest : Bytes → Bytes
manifest owner =
    text "\"AppState\"\n{\n\"buildid\" \"77\"\n"
    ++ (text "\"LastOwner\" \"" ++ (owner ++ text "\"\n}\n"))

abbrev join_last : List Bytes → Bytes
join_last [] = []
join_last (p ∷ []) = p
join_last (p ∷ q ∷ ps) = join_last (q ∷ ps)

abbrev describe_path : Bytes → Install
describe_path path = record {
  install_path = path;
  binary_name = [];
  binary_size = 0;
  binary_sha256 = [];
  binary_build_id = [];
  binary_arch = [];
  platform = [];
  runtime = [];
}

abbrev libraries : Bytes → List (Bytes × Option Bytes)
libraries owner = (text "/games", some (manifest owner)) ∷ (text "/more", none) ∷ []

manifests_alike :
    AllAlike
      (split_byte b'\n' [] (manifest (text "1")))
      (split_byte b'\n' [] (manifest (text "23")))
unfolding split_byte text trim_space trim_left trim_right keep_before kv_line with_key with_value
    quoted closed cut cut_at lower same
manifests_alike = (
  alike _,
  (alike _, (alike _, (owners _ _ _ _ _ _ refl refl refl refl, (alike _, (alike _, tt))))),
)

detect-same_example :
    detect join_last describe_path none [] [] (libraries (text "1"))
    ≡ detect join_last describe_path none [] [] (libraries (text "23"))
detect-same_example =
    detect-same join_last describe_path none [] [] (libraries (text "1")) (libraries (text "23"))
      (refl, manifests_alike, (refl, tt, tt))

abbrev ann_home : List Bytes
ann_home = (b'h' ∷ []) ∷ (b'a' ∷ []) ∷ []

abbrev ann_games : List Bytes
ann_games = ann_home ++ (b'g' ∷ []) ∷ []

no_slash : (c : ℕ) → c ≢ b'/' → Without b'/' (c ∷ [])
no_slash c h = (h, tt)

tildify_hides_example :
    ((rest : List Bytes)
      → ann_games ≡ ann_home ++ rest
      → tildify (some (path_of ann_home)) (path_of ann_games) ≡ b'~' ∷ path_of rest)
    × (((rest : List Bytes) → ann_games ≢ ann_home ++ rest)
        → tildify (some (path_of ann_home)) (path_of ann_games) ≡ path_of ann_games)
tildify_hides_example =
    tildify_hides (b'h' ∷ []) ((b'a' ∷ []) ∷ []) ann_games
      (no_slash b'h' (omega arith), (no_slash b'a' (omega arith), tt))
      (
        no_slash b'h' (omega arith),
        (no_slash b'a' (omega arith), (no_slash b'g' (omega arith), tt)),
      )

abbrev wire : Bytes → InterfaceInfo
wire name = record { name = name; up = true; carrier = true; loopback = false; offloads = [] }

abbrev lan : Bytes
lan = b'l' ∷ b'1' ∷ []

abbrev wlan : Bytes
wlan = b'w' ∷ b'1' ∷ []

-- The capabilities cannot be read.
abbrev host : List InterfaceInfo → Host
host is = record {
  status_file = none;
  interfaces = some is;
  clock = some (64, 0);
  directory = usable;
  client = none;
}

abbrev flags : List Bytes → CaptureFlags
flags names = record {
  parsed = true;
  relay = false;
  filter = [];
  min_free = some 2048;
  floor = some 512;
  ifaces = names;
}

flags-Accepted : (names : List Bytes) → Accepted (flags names) 2048 512
flags-Accepted names = record {
  parsed = refl;
  relay = refl;
  filter = refl;
  min_free = refl;
  floor = refl;
  below = omega arith;
}

abbrev two_wires : List InterfaceInfo
two_wires = wire lan ∷ wire wlan ∷ []

failed-run_example : failed (run (host two_wires) lan []) ≡ (
    lacks_raw (effective_caps (host two_wires).status_file) || not (has_wire lan (some two_wires)))
failed-run_example = failed-run (host two_wires) lan []

given : (all : List InterfaceInfo) → some two_wires ≡ some all → Distinct all
unfolding same
given all e = let q : two_wires ≡ all = cc in subst Distinct q (refl, (refl, tt))

two_accepted : doctor_exit (host two_wires) lan [] ≡ code_ok
unfolding run check_capabilities effective_caps check_interfaces check_wanted check_live live_of
    report_offloads check_clock check_coverage_dir check_client add failed is_fail same text
    doctor_exit
two_accepted = refl

one_captures : run_capture (host (wire lan ∷ [])) [] (flags []) ≡ captures (wire lan ∷ []) 2048 512
unfolding run check_capabilities effective_caps check_interfaces check_wanted check_live live_of
    report_offloads check_clock check_coverage_dir check_client add failed is_fail same text
    run_capture with_sizes no_bytes joined resolve_interfaces select_live on_resolved
one_captures = refl

doctor_exit-captures_example :
    (i : InterfaceInfo) × (i.name ≡ lan)
    × (i.up ≡ true)
    × (run_capture (host two_wires) [] (flags (lan ∷ [])) ≡ captures (i ∷ []) 2048 512)
doctor_exit-captures_example =
    doctor_exit-captures (host two_wires) b'l' (b'1' ∷ []) [] (flags (lan ∷ [])) 2048 512 given
      (flags-Accepted (lan ∷ [])) refl two_accepted

run_capture_unnamed_example :
    (all : List InterfaceInfo) × (i : InterfaceInfo) × (some (wire lan ∷ []) ≡ some all)
    × (live_of all ≡ i ∷ [])
    × (wire lan ∷ [] ≡ i ∷ [])
    × (i.loopback ≡ false)
run_capture_unnamed_example =
    run_capture_unnamed (host (wire lan ∷ [])) [] (flags []) (wire lan ∷ []) 2048 512 refl
      one_captures

no_name : joined (lan ∷ wlan ∷ []) ≢ []
unfolding joined
no_name e = cc

unknown : first_named (joined (lan ∷ wlan ∷ [])) two_wires ≡ none
unfolding joined same
unknown = refl

run_capture-joined_example :
    run_capture (host two_wires) [] (flags (lan ∷ wlan ∷ [])) ≡ exits code_no_capability
run_capture-joined_example =
    run_capture-joined (host two_wires) [] (flags (lan ∷ wlan ∷ [])) 2048 512 two_wires
      (flags-Accepted (lan ∷ wlan ∷ [])) no_name refl unknown
