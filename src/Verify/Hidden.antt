-- ===== src/Verify/Hidden.antt =====
-- What becomes of the failure that `Verify` of sc-capture/internal/verify/verify.go notes when
-- session.json names another directory.
use star_konflict.Base.{Bool, true, false, Bytes, some, same, if◌then◌else◌, ◌≡◌, refl, ap}
use star_konflict.Verify.{
  failed, Report, Termination, clean_close, disk_floor, other, Metadata, Bundle, loaded, add,
  failing, check_bundle_id, check_termination, new_report, opened, examined, verify_loaded, verify,
}
use star_konflict.Verify.Findings.{has_fail}
use star_konflict.Verify.Twins.{Twins, found_more, examined-Twins}

abbrev pub is_interrupted : Termination → Bool
is_interrupted k = elim k [ other ↦ true | clean_close ↦ false | disk_floor ↦ false ]

record Mismatched (r : Report) : Type 0 where
  status : r.status ≡ failed
  found : has_fail r.findings ≡ true

opened-Mismatched :
    (base : Bytes) (meta : Metadata)
    → same meta.bundle_id base ≡ false
    → Mismatched (opened base meta)
unfolding opened check_bundle_id failing add new_report
opened-Mismatched base meta h = rw h (record { status = refl; found = refl })

check_termination-Twins :
    (k : Termination) (r s : Report)
    → Mismatched r
    → Twins (is_interrupted k) (check_termination k r) (check_termination k s)
unfolding check_termination add
check_termination-Twins clean_close r s m = record {
  status = m.status;
  found = found_more r.findings _ m.found;
}
check_termination-Twins disk_floor r s m = record {
  status = m.status;
  found = found_more r.findings _ m.found;
}
check_termination-Twins other r s m = record {
  status = refl;
  found = found_more r.findings _ m.found;
}

-- If session.json was read and names another directory, `Verify` reports a finding of level `fail`.
-- Its status is `failed` where the session was closed or stopped at the disk floor; where it was
-- interrupted, the status is the one that the same bundle gets in the directory that session.json
-- names, so the mismatch does not show in it.
pub mismatch_hidden :
    (b : Bundle) (meta : Metadata)
    → b.meta ≡ loaded meta
    → same meta.bundle_id b.base ≡ false
    → (r s : Report) × (verify b ≡ some r)
      × (verify (record b { base = meta.bundle_id }) ≡ some s)
      × (has_fail r.findings ≡ true)
      × (r.status ≡ (if is_interrupted meta.termination then s.status else failed))
unfolding verify verify_loaded examined
mismatch_hidden b meta h other_name =
    let r = check_termination meta.termination (opened b.base meta) in
    let s = check_termination meta.termination (opened meta.bundle_id meta) in
    let t =
      examined-Twins (is_interrupted meta.termination) b meta r s
        (check_termination-Twins meta.termination _ _ (opened-Mismatched b.base meta other_name)) in
    (
      examined b meta r,
      examined b meta s,
      ap (verify_loaded b) h,
      ap (verify_loaded (record b { base = meta.bundle_id })) h,
      t.found,
      t.status,
    )
