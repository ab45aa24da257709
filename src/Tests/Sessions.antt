-- ===== src/Tests/Sessions.antt =====
-- Coverage, the session's clock and disk, and the verification of a bundle.
use star_konflict.Base.{
  ℕ, ◌%◌, u64_mod, true, false, List, [], ◌∷◌, Bytes, none, some, ◌≡◌, refl, arith, All, length,
  same, same_refl,
}
use star_konflict.Base.Map.{lookup, bytes_eq}
use star_konflict.Scproto.Tables.{
  Element, key, no_tables, kind_message_type, kind_async_request, kind_notification,
}
use star_konflict.Coverage.{decoded, Entry, Document, observe, summarise, filter, is_unseen, schema}
use star_konflict.Coverage.Observe.{
  rank_at, best, Kept, observe_keeps, Sighting, observe_all, observe_all_rank,
}
use star_konflict.Coverage.Views.{known_of, summarise-filter}
use star_konflict.Session.Clock.{Reading, new_clock}
use star_konflict.Session.Clock.Anchors.{Rising, Call, ticked, closed, run, anchors-Rising}
use star_konflict.Verify.{
  Report, Metadata, loaded, other, no_sums, bad_hashes, files, Bundle, new_report, verify,
  verify_anchors,
}
use star_konflict.Verify.Findings.{Agrees, has_fail}
use star_konflict.Verify.Verdict.{verify-Agrees, verify_anchors-run}
use star_konflict.Verify.Hidden.{mismatch_hidden}
use star_konflict.Journal.{
  Files, Writer, segment_name, new_writer, segments, stats as journal_stats,
  opened as opened_writer, rotate, finish_segment, after_finish, open_next,
}
use star_konflict.Journal.Totals.{
  sum, Call as Journal_call, write_call, close_call, run as journal_run, segments_add_up,
}

-- Message type 13, sighted twice.
abbrev auth : Entry
auth = record {
  kind = kind_message_type;
  id = 13;
  name = b'A' ∷ [];
  state = decoded;
  first_seen_session = b's' ∷ [];
  first_seen_utc = 4;
  observations = 2;
}

abbrev one_entry : Document
one_entry = record {
  schema_version = schema;
  elements = (key kind_message_type 13, auth) ∷ [];
  novel = [];
}

abbrev auth_key : Bytes
auth_key = key kind_message_type 13

auth_found : lookup auth_key one_entry.elements ≡ some auth
unfolding lookup
auth_found = rw (same_refl auth_key)

observe_keeps_example :
    (f : Entry) × (lookup auth_key
        (observe no_tables one_entry kind_message_type 13 false (b't' ∷ []) 9).elements
      ≡ some f)
    × Kept auth f
unfolding is_unseen
observe_keeps_example =
    observe_keeps no_tables one_entry kind_message_type 13 false (b't' ∷ []) 9 auth_key auth_found
      refl

abbrev two_sightings : List Sighting
two_sightings =
    record { kind = kind_message_type; id = 13; done = true; session = b't' ∷ []; at = 9 }
    ∷ record { kind = kind_message_type; id = 14; done = false; session = b't' ∷ []; at = 10 }
    ∷ []

observe_all_rank_example :
    rank_at auth_key (observe_all no_tables one_entry two_sightings)
    ≡ best no_tables auth_key (rank_at auth_key one_entry) two_sightings
observe_all_rank_example = observe_all_rank no_tables two_sightings one_entry auth_key

abbrev small_universe : List Element
small_universe =
    record { kind = kind_message_type; id = 13; name = b'A' ∷ [] }
    ∷ record { kind = kind_notification; id = 2; name = b'B' ∷ [] }
    ∷ []

summarise-filter_example :
    All
      (λ k. known_of k (summarise one_entry) ≡ length (filter one_entry k []))
      (kind_message_type ∷ kind_async_request ∷ kind_notification ∷ [])
summarise-filter_example = summarise-filter one_entry

abbrev opening : Reading
opening = record { wall = 1000; mono = 50 }

-- A tick at which the wall clock has jumped, and the end.
abbrev calls : List Call
calls = ticked (record { wall = 9000000000000; mono = 60 }) 61 62 ∷ closed 9000000000010 70 ∷ []

anchors-Rising_example : Rising (run (new_clock opening) calls).anchors
anchors-Rising_example = anchors-Rising opening calls (omega arith, (omega arith, tt))

verify_anchors-run_example :
    (verify_anchors (run (new_clock opening) calls).anchors new_report).status ≡ new_report.status
verify_anchors-run_example =
    verify_anchors-run opening calls new_report (omega arith, (omega arith, tt))

abbrev metadata : Metadata
metadata = record {
  schema_version = b'1' ∷ [];
  bundle_id = b'x' ∷ [];
  mode = [];
  rewrites = 0;
  termination = other;
  utc_end = none;
  packets_dropped = 0;
  capture_filter = [];
  snaplen = 0;
  anchors = [];
  segments = 1;
  sensitive = true;
}

abbrev bundle : Bundle
bundle = record {
  base = b'x' ∷ [];
  meta = loaded metadata;
  sums = no_sums;
  hashes = bad_hashes [];
  listing = files ((b'c' ∷ []) ∷ []);
  walk = λ _. record { frames = 3; truncated = true; error = some [] };
  loose = some [];
  index = none;
  exists = λ _. true;
}

verify-Agrees_example : (r : Report) × (verify bundle ≡ some r) × Agrees r
verify-Agrees_example = verify-Agrees bundle metadata refl (same_refl (b'x' ∷ []))

abbrev renamed : Bundle
renamed = record bundle { base = b'y' ∷ [] }

mismatch_hidden_example :
    (r s : Report) × (verify renamed ≡ some r)
    × (verify (record renamed { base = b'x' ∷ [] }) ≡ some s)
    × (has_fail r.findings ≡ true)
    × (r.status ≡ s.status)
unfolding same
mismatch_hidden_example = mismatch_hidden renamed metadata refl refl

abbrev stamp : ℕ → Bytes
stamp at = []

abbrev all_well : Files
all_well = record { opens = true; closes = true; writes = true; syncs = true }

abbrev no_sync : Files
no_sync = record { opens = true; closes = true; writes = true; syncs = false }

abbrev fresh_writer : Writer
fresh_writer = record {
  seg = some (record { path = segment_name stamp 1 5; frames = 0; bytes = 0; unflushed = 0 });
  seg_num = 1;
  seg_open = 5;
  first = none;
  last = none;
  segments = [];
  total_frames = 0;
  total_bytes = 0;
  last_flush = 5;
}

-- A frame, one that a failed sync reports as an error, one behind a rotation, and the end.
abbrev journal_calls : List Journal_call
journal_calls =
    write_call all_well 6 100 7 8
    ∷ write_call no_sync 9 5000000 10 11
    ∷ write_call all_well 12 100 700000000000 700000000001
    ∷ close_call all_well
    ∷ []

segments_add_up_example :
    (journal_stats (journal_run stamp fresh_writer journal_calls)).0
    ≡ sum (segments (journal_run stamp fresh_writer journal_calls)) % u64_mod
unfolding new_writer opened_writer rotate after_finish finish_segment open_next
segments_add_up_example = segments_add_up stamp all_well 5 journal_calls refl
