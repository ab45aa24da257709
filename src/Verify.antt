-- ===== src/Verify.antt =====
-- `Verify` of sc-capture/internal/verify/verify.go: what is read from the bundle's directory is a
-- `Bundle`, and the checks come in the order of the source.
mod Contents
mod Checks
pub mod Findings
pub mod Verdict
pub mod Twins
pub mod Hidden
unfoldable pub use Contents.*
unfoldable pub use Checks.*
use star_konflict.Base.{
  ℕ, suc, zero, ◌+◌, ◌-◌, ◌%◌, Bool, true, false, not, ◌&&◌, ◌||◌, List, [], ◌∷◌, ◌++◌, Bytes, text,
  same, before, Option, none, some, ltb, ◌==◌, if◌then◌else◌, length, u64_mod,
}
use star_konflict.Base.Map.{lookup, bytes_eq}
use star_konflict.Session.Clock.{Anchor, AnchorKind, step_detected, start, periodic, end}

unfoldable pub new_report : Report
new_report = record {
  status = clean;
  mode = [];
  rewrites = 0;
  frames = 0;
  segments = 0;
  drops = 0;
  findings = [];
}

-- What stands before the termination's check.
unfoldable pub opened : Bytes → Metadata → Report
opened base meta = check_bundle_id base meta (
    add
      (record new_report {
        mode = meta.mode;
        rewrites = meta.rewrites;
        drops = meta.packets_dropped;
      })
      (text "schema") ok (version meta.schema_version))

-- Everything from the test of `utc_end` on.
unfoldable pub examined : Bundle → Metadata → Report → Report
examined b meta r = verify_index b.exists b.index (
    check_sensitive meta.sensitive (
      check_permissions b.loose (
        verify_anchors meta.anchors (
          check_snaplen meta.snaplen (
            check_filter meta.capture_filter (
              check_drops meta.packets_dropped (
                verify_segments b.walk meta.segments b.listing
                  (verify_sums b.sums b.hashes (check_end meta.utc_end meta.termination r)))))))))

-- `none` is the error of an unreadable schema version.
unfoldable pub verify_loaded : Bundle → Loaded → Option Report
verify_loaded b schema_unreadable = none
verify_loaded b (not_loaded e) = some (failing new_report (text "session.json") (message e))
verify_loaded b (loaded meta) =
    some (examined b meta (check_termination meta.termination (opened b.base meta)))

unfoldable pub verify : Bundle → Option Report
verify b = verify_loaded b b.meta
