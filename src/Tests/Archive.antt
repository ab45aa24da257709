-- ===== src/Tests/Archive.antt =====
-- Bundles on disk: their names, markers, sums and versions.
use star_konflict.Base.{
  ℕ, ◌+◌, ◌≡◌, refl, ap, Bool, true, false, List, [], ◌∷◌, Bytes, some, arith, inl, map, Option,
  text,
}
use star_konflict.Base.Decimal.{
  decimal, itoa, value, value-decimal, decimal-Without, digits_loop, Without,
}
use star_konflict.Base.Int.{ℤ, pos}
use star_konflict.Base.Map.{lookup, bytes_eq}
use star_konflict.Base.Strings.{
  scan, scanned, lines_from, last_line, trim_left, trim_right, keep_before,
}
use star_konflict.Annotate.{
  format, Beacon, holds, open_beacon, beacon_at, last_seq, last_of, padded, one_line,
}
use star_konflict.Annotate.Log.{Call, Fits, stamp_all, open_beacon-stamp_all}
use star_konflict.Annotate.Derived.{new_deriver}
use star_konflict.Annotate.Derived.Once.{
  Event, Look, event_label, handoffs_of, novel_of, warnings_of, labels, observe_all, no_stats,
  observe_all-once,
}
use star_konflict.Decode.Pipeline.{Stats}
use star_konflict.Decode.Record.{Handoff}
use star_konflict.Journal.Sums.{sums, decodes, all_hex, read_sums, write_sums}
use star_konflict.Journal.Sums.RoundTrip.{Clean, read_sums-write_sums}
use star_konflict.Session.Bundle.{
  bundle_id, valid_bundle_id, create_bundle, scenario_part, region_part, has_name,
}
use star_konflict.Session.Bundle.Valid.{IsStamp, bundle_id-valid_bundle_id}
use star_konflict.Session.Bundle.Create.{Takes, create_bundle-Takes}
use star_konflict.Dashboard.{scenario_of}
use star_konflict.Dashboard.Names.{scenario_of-bundle_id}

-- A time written as its number.
abbrev read_number : Bytes → Option ℕ
read_number s = some (value 0 s)

read_decimal : (w : ℕ) → read_number (decimal w) ≡ some w
read_decimal w = ap some (value-decimal w)

bar_free : (w : ℕ) → Without b'|' (decimal w)
bar_free w = decimal-Without b'|' w (λ d. omega (arith, d))

line_free : (w : ℕ) → Without b'\n' (decimal w)
line_free w = decimal-Without b'\n' w (λ d. omega (arith, d))

-- The kind `E` and a label with a bar and a newline.
abbrev kind_e : Bytes
kind_e = b'E' ∷ []

abbrev note : Bytes
note = b'a' ∷ b'|' ∷ b'\n' ∷ []

abbrev call : Call
call = record { kind = kind_e; label = note; wall = 7; mono = 884 }

call-Fits : Fits decimal read_number 1 call
unfolding format padded one_line text decimal digits_loop itoa
call-Fits = record {
  number = omega arith;
  mono = omega arith;
  kind_bars = (omega arith, tt);
  kind_lines = (omega arith, tt);
  short = omega arith;
}

abbrev new_beacon : Beacon
new_beacon = record { f = []; conn = true; seq = pos 0; port = 24242 }

first_open : open_beacon read_number (holds []) true true 0 ≡ some new_beacon
unfolding open_beacon beacon_at last_seq last_of scan scanned lines_from last_line
first_open = refl

open_beacon-stamp_all_example :
    (open_beacon read_number
        (holds (stamp_all decimal read_number new_beacon (call ∷ [])).f)
        true
        true
        0
      ≡ some (stamp_all decimal read_number new_beacon (call ∷ [])))
    × ((stamp_all decimal read_number new_beacon (call ∷ [])).seq ≡ pos (0 + 1))
open_beacon-stamp_all_example =
    open_beacon-stamp_all decimal read_number (λ w. w) read_decimal bar_free line_free [] true 0 0
      new_beacon (call ∷ []) (inl refl) first_open refl (call-Fits, tt)

-- A handoff, and a snapshot with it.
abbrev handoff : Handoff
handoff = record { addr = b'h' ∷ []; port = 9; session_id = 3; zone_id = pos 4; at = 100 }

abbrev snapshot : Stats
snapshot = record no_stats { handoffs = handoff ∷ []; credentials_seen = true }

abbrev look : Look
look = record { stats = snapshot; wall = 120; mono = pos 20 }

abbrev always : ℤ → Bool × Bool
always n = (true, true)

observe_all-once_example :
    (es : List Event) × (labels
        (observe_all decimal always (λ n. refl) (new_deriver new_beacon) (look ∷ []))
      ≡ map event_label es)
    × (handoffs_of es ≡ handoff ∷ [])
    × (novel_of es ≡ [])
    × (warnings_of es ≡ 1)
observe_all-once_example =
    observe_all-once decimal always (λ n. refl) new_beacon (look ∷ [])
      (record { handoffs = (handoff ∷ [], refl); novel = ([], refl); credentials = λ h. refl }, tt)

-- A manifest of one file.
abbrev manifest : List (Bytes × Bytes)
manifest = (b'n' ∷ [], b'0' ∷ b'f' ∷ []) ∷ []

manifest_Clean : Clean (b'n' ∷ []) (b'0' ∷ b'f' ∷ [])
unfolding decodes all_hex trim_left trim_right keep_before
manifest_Clean = record {
  digest = refl;
  digest_some = λ e. cc;
  name_some = λ e. cc;
  name_line = omega arith;
  name_left = refl;
  name_right = refl;
  short = omega arith;
}

read_sums-write_sums_example :
    (out : List (Bytes × Bytes)) × (read_sums (write_sums manifest) ≡ sums out)
    × ((k : Bytes) → lookup k out ≡ lookup k manifest)
read_sums-write_sums_example = read_sums-write_sums manifest (manifest_Clean, tt)

-- The night of 14 August 2026.
abbrev start : Bytes
start =
    b'2' ∷ b'0' ∷ b'2' ∷ b'6' ∷ b'0' ∷ b'8' ∷ b'1' ∷ b'4' ∷ b'T' ∷ b'2' ∷ b'0' ∷ b'3' ∷ b'1' ∷ b'4'
    ∷ b'0' ∷ b'Z' ∷ []

start_IsStamp : IsStamp start
start_IsStamp = record {
  date = b'2' ∷ b'0' ∷ b'2' ∷ b'6' ∷ b'0' ∷ b'8' ∷ b'1' ∷ b'4' ∷ [];
  clock = b'2' ∷ b'0' ∷ b'3' ∷ b'1' ∷ b'4' ∷ b'0' ∷ [];
  parts = refl;
  date_digits = omega arith;
  clock_digits = omega arith;
  date_length = refl;
  clock_length = refl;
}

-- A scenario, a volunteer and a region as somebody types them.
abbrev scenario : Bytes
scenario = b' ' ∷ b's' ∷ b'c' ∷ b'-' ∷ b'_' ∷ b'_' ∷ b'a' ∷ []

abbrev volunteer : Bytes
volunteer = b'v' ∷ b'_' ∷ b'1' ∷ []

abbrev region : Bytes
region = b'e' ∷ b'u' ∷ []

bundle_id-valid_bundle_id_example :
    valid_bundle_id (bundle_id start scenario volunteer region 7) ≡ true
bundle_id-valid_bundle_id_example =
    bundle_id-valid_bundle_id start scenario volunteer region 7 start_IsStamp (omega arith)

nothing_there : has_name (bundle_id start scenario volunteer region 3) [] ≡ false
unfolding has_name
nothing_there = refl

create_bundle-Takes_example :
    Takes
      (bundle_id start scenario volunteer region)
      []
      0
      3
      (create_bundle (λ n. false) (λ n. true) true start scenario volunteer region [])
create_bundle-Takes_example =
    create_bundle-Takes (λ n. false) (λ n. true) (λ n. refl) (λ n. refl) start scenario volunteer
      region [] 3 (omega arith) nothing_there

scenario_of-bundle_id_example :
    scenario_of (bundle_id start scenario volunteer region 7)
    ≡ (scenario_part scenario, region_part region)
scenario_of-bundle_id_example =
    scenario_of-bundle_id start scenario volunteer region 7 start_IsStamp
