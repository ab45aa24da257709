-- ===== src/Verify/Verdict.antt =====
-- The status of `Verify`, of sc-capture/internal/verify/verify.go, against the levels of its
-- findings, and on the anchors of a session's clock.
use star_konflict.Base.{
  ℕ, suc, zero, ◌+◌, ◌≤◌, true, false, List, [], ◌∷◌, Bytes, same, some, ltb, ltb-false, ◌≡◌, refl,
  sym, ap, ◌∙◌, All,
}
use star_konflict.Session.Clock.{Anchor, Reading, new_clock}
use star_konflict.Session.Clock.Anchors.{Rising, Call, run, InOrder, anchors-Rising}
use star_konflict.Verify.{
  interrupted, Level, ok, warn, Detail, Report, Termination, clean_close, disk_floor, other,
  Metadata, loaded, Bundle, add, is_failed, check_bundle_id, check_termination, check_drops,
  check_snaplen, finish_anchors, walk_anchors, verify_anchors, new_report, opened, examined,
  verify_loaded, verify,
}
use star_konflict.Verify.Findings.{
  Agrees, has_fail, failing-Agrees, add_ok-Agrees, add_warn-Agrees, if-Agrees, check_end-Agrees,
  verify_sums-Agrees, verify_segments-Agrees, check_filter-Agrees, verify_anchors-Agrees,
  check_permissions-Agrees, check_sensitive-Agrees, verify_index-Agrees,
}

check_drops-Agrees : (n : ℕ) (r : Report) → Agrees r → Agrees (check_drops n r)
unfolding check_drops
check_drops-Agrees n r h = if-Agrees (ltb 0 n) _ _ (failing-Agrees r _ _) (add_ok-Agrees r _ _ h)

check_snaplen-Agrees : (n : ℕ) (r : Report) → Agrees r → Agrees (check_snaplen n r)
unfolding check_snaplen
check_snaplen-Agrees n r h = if-Agrees (ltb 0 n) _ _ (add_warn-Agrees r _ _ h) h

examined-Agrees :
    (b : Bundle) (meta : Metadata) (r : Report) → Agrees r → Agrees (examined b meta r)
unfolding examined
examined-Agrees b meta r h = verify_index-Agrees b.exists b.index _ (
    check_sensitive-Agrees meta.sensitive _ (
      check_permissions-Agrees b.loose _ (
        verify_anchors-Agrees meta.anchors _ (
          check_snaplen-Agrees meta.snaplen _ (
            check_filter-Agrees meta.capture_filter _ (
              check_drops-Agrees meta.packets_dropped _ (
                verify_segments-Agrees b.walk meta.segments b.listing _ (
                  verify_sums-Agrees b.sums b.hashes _
                    (check_end-Agrees meta.utc_end meta.termination r h)))))))))

-- A report in which nothing has failed yet.
record Unfailed (r : Report) : Type 0 where
  status_fine : is_failed r.status ≡ false
  none_failed : has_fail r.findings ≡ false

opened-Unfailed :
    (base : Bytes) (meta : Metadata) → same meta.bundle_id base ≡ true → Unfailed (opened base meta)
unfolding opened check_bundle_id add new_report is_failed
opened-Unfailed base meta h = rw h (record { status_fine = refl; none_failed = refl })

check_termination-Agrees :
    (t : Termination) (r : Report) → Unfailed r → Agrees (check_termination t r)
unfolding check_termination
check_termination-Agrees clean_close r u =
    add_ok-Agrees r _ _ (record { says = u.status_fine ∙ sym u.none_failed })
check_termination-Agrees disk_floor r u =
    add_warn-Agrees r _ _ (record { says = u.status_fine ∙ sym u.none_failed })
check_termination-Agrees other r u = add_warn-Agrees _ _ _ (interrupted-Agrees r u)
  where
    interrupted-Agrees : (r : Report) → Unfailed r → Agrees (record r { status = interrupted })
    interrupted-Agrees r u = record { says = unfold is_failed in sym u.none_failed }

-- If session.json was read and names the bundle's directory, `Verify` reports, and its status
-- is `failed` exactly if one of its findings is of level `fail`, whatever else is on the disk.
pub verify-Agrees :
    (b : Bundle) (meta : Metadata)
    → b.meta ≡ loaded meta
    → same meta.bundle_id b.base ≡ true
    → (r : Report) × (verify b ≡ some r) × Agrees r
unfolding verify verify_loaded
verify-Agrees b meta h named =
    let start = check_termination meta.termination (opened b.base meta) in
    (
      examined b meta start,
      ap (verify_loaded b) h,
      examined-Agrees b meta start
          (check_termination-Agrees meta.termination _ (opened-Unfailed b.base meta named)),
    )

add_status :
    (r : Report) (check : Bytes) (l : Level) (d : Detail) → (add r check l d).status ≡ r.status
unfolding add
add_status r check l d = refl

walk_anchors_passes :
    (i mono n : ℕ) (as' : List Anchor) (r : Report)
    → All (λ b. mono ≤ b.mono) as'
    → Rising as'
    → (walk_anchors i mono n as' r).status ≡ r.status
unfolding walk_anchors finish_anchors
walk_anchors_passes i mono zero [] r h k = add_status r _ ok _
walk_anchors_passes i mono (suc n) [] r h k = add_status r _ warn _
walk_anchors_passes i mono n (a ∷ as') r h k =
    rw (ltb-false a.mono mono h.0) (walk_anchors_passes (i + 1) a.mono _ as' r k.0 k.1)

verify_anchors_passes :
    (as' : List Anchor) (r : Report) → Rising as' → (verify_anchors as' r).status ≡ r.status
unfolding verify_anchors
verify_anchors_passes [] r k = add_status r _ warn _
verify_anchors_passes (a ∷ as') r k = walk_anchors_passes 1 a.mono 0 as' r k.0 k.1

-- The anchors that a session's clock has recorded by any calls of `Tick` and `Close`, with a
-- monotonic clock that never runs back, never make `Verify` fail, wall-clock steps or not.
pub verify_anchors-run :
    (now : Reading) (cs : List Call) (r : Report)
    → InOrder now.mono cs
    → (verify_anchors (run (new_clock now) cs).anchors r).status ≡ r.status
verify_anchors-run now cs r o = verify_anchors_passes _ r (anchors-Rising now cs o)
