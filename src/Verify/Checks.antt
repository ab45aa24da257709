-- ===== src/Verify/Checks.antt =====
-- The single checks of sc-capture/internal/verify/verify.go, each from a report to a report.
use star_konflict.Base.Strings.{sort_strings}
use star_konflict.Base.{
  ℕ, suc, zero, ◌+◌, ◌-◌, ◌%◌, Bool, true, false, ◌&&◌, ◌||◌, List, [], ◌∷◌, Bytes, text, same,
  Option, none, some, ltb, ◌==◌, if◌then◌else◌, length, u64_mod,
}
use star_konflict.Base.Map.{lookup, bytes_eq}
use star_konflict.Session.Clock.{Anchor, AnchorKind, step_detected, start, periodic, end}
use star_konflict.Verify.Contents.{
  Detail, Report, Termination, Metadata, Sums, Hashes, Walk, Listing, Index, add, failing,
  interrupted, ok, warn, message, id_differs, dropped, filtered, truncated_to, readable, mismatched,
  absent, unlisted, matching, segment_error, torn_tail, torn_middle, segment_frames, segment_count,
  backwards, steps, anchors, bad_citations, records, clean_close, disk_floor, other, no_sums,
  bad_sums, sums, bad_hashes, hashes, bad_listing, files,
}

unfoldable pub check_bundle_id : Bytes → Metadata → Report → Report
check_bundle_id base meta r =
    if same meta.bundle_id base
    then r
    else failing r (text "bundle id") (id_differs meta.bundle_id base)

unfoldable pub check_termination : Termination → Report → Report
check_termination clean_close r = add r (text "termination") ok (message (text "closed cleanly"))
check_termination disk_floor r =
    add r (text "termination") warn (message (text "free space reached the floor"))
check_termination other r =
    add (record r { status = interrupted }) (text "termination") warn
      (message (text "session was interrupted"))

unfoldable pub check_end : Option ℕ → Termination → Report → Report
check_end none clean_close r =
    failing r (text "termination") (message (text "claims a clean close but has no utc_end"))
check_end _ _ r = r

-- `sort.Strings`.
unfoldable pub missing_of : List (Bytes × Bytes) → List (Bytes × Bytes) → List Bytes
missing_of [] actual = []
missing_of ((name, _) ∷ m) actual = elim (lookup name actual) [
  | none ↦ name ∷ missing_of m actual
  | some _ ↦ missing_of m actual
]

unfoldable pub mismatched_of : List (Bytes × Bytes) → List (Bytes × Bytes) → List Bytes
mismatched_of [] actual = []
mismatched_of ((name, want) ∷ m) actual = elim (lookup name actual) [
  | none ↦ mismatched_of m actual
  | some got ↦ if same got want then mismatched_of m actual else name ∷ mismatched_of m actual
]

unfoldable pub is_none : List Bytes → Bool
is_none [] = true
is_none (_ ∷ _) = false

unfoldable pub fail_names : Report → List Bytes → Detail → Report
fail_names r names detail = if is_none names then r else failing r (text "integrity") detail

unfoldable pub warn_names : Report → List Bytes → Detail → Report
warn_names r names detail = if is_none names then r else add r (text "integrity") warn detail

unfoldable pub compare_sums : List (Bytes × Bytes) → List (Bytes × Bytes) → Report → Report
compare_sums declared actual r =
    let wrong = sort_strings (mismatched_of declared actual) in
    let gone = sort_strings (missing_of declared actual) in
    let extra = sort_strings (missing_of actual declared) in
    let r1 = fail_names r wrong (mismatched wrong) in
    let r2 = fail_names r1 gone (absent gone) in
    let r3 = warn_names r2 extra (unlisted extra) in
    if is_none wrong && is_none gone
    then add r3 (text "integrity") ok (matching (length declared))
    else r3

unfoldable pub verify_sums : Sums → Hashes → Report → Report
verify_sums no_sums h r =
    add r (text "integrity") warn (message (text "expected for an interrupted session"))
verify_sums (bad_sums e) h r = failing r (text "integrity") (message e)
verify_sums (sums declared) (bad_hashes e) r = failing r (text "integrity") (message e)
verify_sums (sums declared) (hashes actual) r = compare_sums declared actual r

-- The switch on what `walkSegment` returns: whether the file is truncated, the error, and whether
-- `i == len(names)-1`.
unfoldable pub judge_segment : Bytes → ℕ → Bool → Option Bytes → Bool → Report → Report
judge_segment name n true e true r = add r (text "segments") warn (torn_tail name n)
judge_segment name n true e false r = failing r (text "segments") (torn_middle name)
judge_segment name n false (some e) last r = failing r (text "segments") (segment_error name e)
judge_segment name n false none last r = add r (text "segments") ok (segment_frames name n)

unfoldable pub check_segment : Bytes → Walk → Bool → Report → Report
check_segment name w last r = judge_segment name w.frames w.truncated w.error last r

unfoldable pub check_segments : (Bytes → Walk) → List Bytes → Report → Report
check_segments walk [] r = r
check_segments walk (name ∷ names) r =
    check_segments walk names (check_segment name (walk name) (is_none names) r)

unfoldable pub sum_frames : (Bytes → Walk) → List Bytes → ℕ
sum_frames walk [] = 0
sum_frames walk (name ∷ names) = ((walk name).frames + sum_frames walk names) % u64_mod

unfoldable pub check_listed : ℕ → ℕ → Report → Report
check_listed listed present r =
    if listed == 0 || listed == present
    then r
    else add r (text "segments") warn (segment_count listed present)

unfoldable pub verify_names : (Bytes → Walk) → ℕ → List Bytes → Report → Report
verify_names walk listed [] r =
    failing r (text "segments") (message (text "there is no evidence in this bundle"))
verify_names walk listed (n ∷ ns) r =
    let s = check_listed listed (length (n ∷ ns)) (check_segments walk (n ∷ ns) r) in
    record s { frames = sum_frames walk (n ∷ ns); segments = length (n ∷ ns) }

-- The files are those that end in `.pcapng`.
unfoldable pub verify_segments : (Bytes → Walk) → ℕ → Listing → Report → Report
verify_segments walk listed (bad_listing e) r = failing r (text "segments") (message e)
verify_segments walk listed (files names) r = verify_names walk listed (sort_strings names) r

unfoldable pub check_drops : ℕ → Report → Report
check_drops n r =
    if ltb 0 n
    then failing r (text "drops") (dropped n)
    else add r (text "drops") ok (message (text "no packets dropped"))

unfoldable pub check_filter : Bytes → Report → Report
check_filter [] r = r
check_filter (c ∷ cs) r = add r (text "filter") warn (filtered (c ∷ cs))

unfoldable pub check_snaplen : ℕ → Report → Report
check_snaplen n r = if ltb 0 n then add r (text "snaplen") warn (truncated_to n) else r

abbrev is_step : AnchorKind → Bool
is_step k = elim k [ step_detected ↦ true | start ↦ false | periodic ↦ false | end ↦ false ]

unfoldable pub finish_anchors : ℕ → ℕ → Report → Report
finish_anchors zero count r = add r (text "clock") ok (anchors count)
finish_anchors (suc n) count r = add r (text "clock") warn (steps (suc n))

-- The loop from the second anchor on: `i` is the next position, `mono` the time before it.
unfoldable pub walk_anchors : ℕ → ℕ → ℕ → List Anchor → Report → Report
walk_anchors i mono n [] r = finish_anchors n i r
walk_anchors i mono n (a ∷ as') r =
    let rest = walk_anchors (i + 1) a.mono (if is_step a.kind then suc n else n) as' r in
    if ltb a.mono mono then failing r (text "clock") (backwards (i - 1) i) else rest

unfoldable pub verify_anchors : List Anchor → Report → Report
verify_anchors [] r = add r (text "clock") warn (message (text "no clock anchors recorded"))
verify_anchors (a ∷ as') r = walk_anchors 1 a.mono 0 as' r

unfoldable pub check_permissions : Option (List Bytes) → Report → Report
check_permissions none r = r
check_permissions (some []) r = add r (text "permissions") ok (message (text "owner-only"))
check_permissions (some (f ∷ fs)) r = add r (text "permissions") warn (readable (f ∷ fs))

unfoldable pub check_sensitive : Bool → Report → Report
check_sensitive true r = r
check_sensitive false r =
    failing r (text "sensitivity") (message (text "session is not marked sensitive"))

unfoldable pub bad_in : (Bytes → Bool) → List Bytes → ℕ
bad_in exists [] = 0
bad_in exists (s ∷ ss) = if exists s then bad_in exists ss else suc (bad_in exists ss)

unfoldable pub bad_cites : (Bytes → Bool) → List (List Bytes) → ℕ
bad_cites exists [] = 0
bad_cites exists (c ∷ cs) = bad_in exists c + bad_cites exists cs

unfoldable pub finish_index : ℕ → ℕ → Report → Report
finish_index zero zero r = r
finish_index zero (suc n) r = add r (text "index") ok (records (suc n))
finish_index (suc bad) n r = add r (text "index") warn (bad_citations (suc bad))

unfoldable pub warn_torn : Bool → Report → Report
warn_torn true r = add r (text "index") warn (message (text "truncated final record"))
warn_torn false r = r

unfoldable pub verify_index : (Bytes → Bool) → Option Index → Report → Report
verify_index exists none r = r
verify_index exists (some x) r =
    finish_index (bad_cites exists x.cites) (length x.cites) (warn_torn x.torn r)
