-- ===== src/Annotate.antt =====
-- sc-capture/internal/annotate/marker.go and derived.go. The layout of a time is the parameter
-- `format_time`, and reading it back `parse_time`; whether a write or a sync of the log succeeds is
-- an argument. The datagram that goes out beside a line is not modelled.
pub mod RoundTrip
pub mod Log
pub mod Derived
use star_konflict.Base.{
  ℕ, suc, ◌+◌, ◌-◌, Bool, true, false, not, ◌&&◌, List, [], ◌∷◌, ◌++◌, Bytes, text, same, Option,
  none, some, length, replicate, drop, if◌then◌else◌, ◌==◌, ltb,
}
use star_konflict.Base.Decimal.{decimal, itoa}
use star_konflict.Base.Int.{ℤ, pos, negsuc, ltb_ℤ}
use star_konflict.Base.Strings.{trim_space, split_n, atoi, scan}
use star_konflict.Scproto.Tables.{Element}
use star_konflict.Decode.Record.{Handoff}
use star_konflict.Decode.Pipeline.{Stats}

abbrev pub kind_heartbeat : Bytes
kind_heartbeat = text "HEARTBEAT"

abbrev pub kind_event : Bytes
kind_event = text "EVENT"

abbrev pub kind_derived : Bytes
kind_derived = text "DERIVED"

abbrev pub kind_anomaly : Bytes
kind_anomaly = text "ANOMALY"

abbrev pub default_beacon_port : ℕ
default_beacon_port = 24242

-- A time is a number of nanoseconds.
pub record Marker : Type 0 where
  pub seq : ℤ
  pub wall : ℕ
  pub mono : ℤ
  pub kind : Bytes
  pub label : Bytes

-- `strings.ReplaceAll(m.Label, "\n", " ")`.
unfoldable pub one_line : Bytes → Bytes
one_line [] = []
one_line (c ∷ cs) = (if c == b'\n' then b' ' else c) ∷ one_line cs

-- The `%06d` verb, whose width counts the sign.
unfoldable pub padded : ℤ → Bytes
padded (pos n) = replicate (6 - length (decimal n)) b'0' ++ decimal n
padded (negsuc n) = b'-' ∷ (replicate (5 - length (decimal (suc n))) b'0' ++ decimal (suc n))

module _ (format_time : ℕ → Bytes) where
  unfoldable pub format : Marker → Bytes
  format m =
      text "SCMARK"
      ++ (b'|'
          ∷ (padded m.seq
              ++ (b'|'
                  ∷ (format_time m.wall
                      ++ (b'|'
                          ∷ (itoa m.mono ++ (b'|' ∷ (m.kind ++ (b'|' ∷ one_line m.label)))))))))

-- The errors of `Parse`, in the order of its checks.
pub data Parsed : Type 0 where
  marker : Marker → Parsed
  no_marker bad_sequence bad_timestamp bad_monotonic : Parsed

unfoldable pub with_mono : ℤ → ℕ → Bytes → Bytes → Option ℤ → Parsed
with_mono seq wall kind label none = bad_monotonic
with_mono seq wall kind label (some m) =
    marker (record { seq = seq; wall = wall; mono = m; kind = kind; label = label })

unfoldable pub with_wall : ℤ → Bytes → Bytes → Bytes → Option ℕ → Parsed
with_wall seq mono kind label none = bad_timestamp
with_wall seq mono kind label (some w) = with_mono seq w kind label (atoi mono)

module _ (parse_time : Bytes → Option ℕ) where
  unfoldable pub with_seq : Bytes → Bytes → Bytes → Bytes → Option ℤ → Parsed
  with_seq wall mono kind label none = bad_sequence
  with_seq wall mono kind label (some s) = with_wall s mono kind label (parse_time wall)

  unfoldable pub parse_parts : List Bytes → Parsed
  parse_parts (tag ∷ seq ∷ wall ∷ mono ∷ kind ∷ label ∷ []) =
      if same tag (text "SCMARK") then with_seq wall mono kind label (atoi seq) else no_marker
  parse_parts _ = no_marker

  unfoldable pub parse : Bytes → Parsed
  parse line = parse_parts (split_n b'|' 6 (trim_space line))

  -- The body of the loop of `lastSeq`.
  unfoldable pub later_seq : ℤ → Parsed → ℤ
  later_seq last (marker m) = if ltb_ℤ last m.seq then m.seq else last
  later_seq last _ = last

  unfoldable pub last_of : ℤ → List Bytes → ℤ
  last_of last [] = last
  last_of last (l ∷ ls) = last_of (later_seq last (parse l)) ls

  -- `lastSeq` of a log that exists; `none` for the error of the scanner.
  unfoldable pub last_seq : Bytes → Option ℤ
  last_seq log = let (ls, fine) = scan log in if fine then some (last_of (pos 0) ls) else none

-- `f` is what the log holds, `conn` whether the broadcast socket is open.
pub record Beacon : Type 0 where
  pub f : Bytes
  pub conn : Bool
  pub seq : ℤ
  pub port : ℕ

-- What the file system holds where the log should be.
pub data LogFile : Type 0 where
  missing unreadable : LogFile
  holds : Bytes → LogFile

unfoldable pub beacon_at : Bytes → Bool → Bool → ℕ → Option ℤ → Option Beacon
beacon_at log opens conn port none = none
beacon_at log opens conn port (some s) =
    if opens then some (record { f = log; conn = conn; seq = s; port = port }) else none

module _ (parse_time : Bytes → Option ℕ) where
  -- `OpenBeacon`; `opens` says whether the log opens for appending, `socket` whether the broadcast
  -- socket does.
  unfoldable pub open_beacon : LogFile → Bool → Bool → ℕ → Option Beacon
  open_beacon missing opens socket port =
      beacon_at [] opens socket (if port == 0 then default_beacon_port else port) (some (pos 0))
  open_beacon unreadable opens socket port = none
  open_beacon (holds log) opens socket port =
      beacon_at log opens socket (if port == 0 then default_beacon_port else port)
        (last_seq parse_time log)

-- `b.seq++` on an int of 64 bits.
unfoldable pub next_seq : ℤ → ℤ
next_seq (pos n) = if n == 9223372036854775807 then negsuc 9223372036854775807 else pos (n + 1)
next_seq (negsuc n) = if n == 0 then pos 0 else negsuc (n - 1)

-- What `Stamp` returns beside the marker: `true` for no error.
module _ (format_time : ℕ → Bytes) where
  unfoldable pub stamp : Beacon → Bytes → Bytes → ℕ → ℤ → (Bool × Bool) → Beacon × Marker × Bool
  stamp b kind label wall mono (writes, syncs) =
      let s = next_seq b.seq in
      let m : Marker = record { seq = s; wall = wall; mono = mono; kind = kind; label = label } in
      let c = record b { seq = s } in
      if writes
      then (record c { f = b.f ++ (format format_time m ++ b'\n' ∷ []) }, m, syncs)
      else (c, m, false)

abbrev pub count : Beacon → ℤ
count b = b.seq

unfoldable pub port_of : Beacon → ℕ
port_of b = if b.conn then b.port else 0
