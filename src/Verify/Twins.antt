-- ===== src/Verify/Twins.antt =====
-- Two runs of the checks of sc-capture/internal/verify/verify.go on two reports, side by side.
use star_konflict.Base.Strings.{sort_strings}
use star_konflict.Base.{
  ℕ, suc, zero, ◌+◌, Bool, true, false, List, [], ◌∷◌, ◌++◌, Bytes, Option, none, some, ltb,
  if◌then◌else◌, ◌≡◌, refl, arith,
}
use star_konflict.Session.Clock.{Anchor}
use star_konflict.Verify.{
  failed, Level, ok, warn, Detail, Finding, Report, Termination, clean_close, disk_floor, other,
  Sums, no_sums, bad_sums, sums, Hashes, bad_hashes, hashes, Walk, Listing, bad_listing, files,
  Index, Metadata, Bundle, add, failing, check_end, fail_names, warn_names, compare_sums,
  verify_sums, judge_segment, check_segment, check_segments, check_listed, verify_names,
  verify_segments, check_drops, check_snaplen, check_filter, finish_anchors, walk_anchors,
  verify_anchors, check_permissions, check_sensitive, finish_index, warn_torn, verify_index,
  is_none, examined,
}
use star_konflict.Verify.Findings.{has_fail, has_fail-append}

-- Two reports, the first with a finding of level `fail`: its status is `failed`, or, where the
-- failure is hidden, that of the second.
pub record Twins (hidden : Bool) (r s : Report) : Type 0 where
  pub status : r.status ≡ (if hidden then s.status else failed)
  pub found : has_fail r.findings ≡ true

pub found_more :
    (fs : List Finding) (f : Finding) → has_fail fs ≡ true → has_fail (fs ++ f ∷ []) ≡ true
found_more fs f h = ground (arith, has_fail-append fs f, h)

module _ (hid : Bool) where
  failing-Twins :
      (r s : Report) (check : Bytes) (d : Detail)
      → Twins hid r s
      → Twins hid (failing r check d) (failing s check d)
  unfolding failing add
  failing-Twins r s check d t = record {
    status = either hid;
    found = found_more r.findings _ t.found;
  }
    where
      either : (b : Bool) → failed ≡ (if b then failed else failed)
      either true = refl
      either false = refl

  add-Twins :
      (r s : Report) (check : Bytes) (l : Level) (d : Detail)
      → Twins hid r s
      → Twins hid (add r check l d) (add s check l d)
  unfolding add
  add-Twins r s check l d t = record { status = t.status; found = found_more r.findings _ t.found }

  if-Twins :
      (c : Bool) (r s q p : Report)
      → Twins hid r s
      → Twins hid q p
      → Twins hid (if c then r else q) (if c then s else p)
  if-Twins true r s q p t u = t
  if-Twins false r s q p t u = u

  check_end-Twins :
      (e : Option ℕ) (k : Termination) (r s : Report)
      → Twins hid r s
      → Twins hid (check_end e k r) (check_end e k s)
  unfolding check_end
  check_end-Twins none clean_close r s t = failing-Twins r s _ _ t
  check_end-Twins none disk_floor r s t = t
  check_end-Twins none other r s t = t
  check_end-Twins (some u) k r s t = t

  fail_names-Twins :
      (r s : Report) (ns : List Bytes) (d : Detail)
      → Twins hid r s
      → Twins hid (fail_names r ns d) (fail_names s ns d)
  unfolding fail_names
  fail_names-Twins r s ns d t = if-Twins (is_none ns) r s _ _ t (failing-Twins r s _ d t)

  warn_names-Twins :
      (r s : Report) (ns : List Bytes) (d : Detail)
      → Twins hid r s
      → Twins hid (warn_names r ns d) (warn_names s ns d)
  unfolding warn_names
  warn_names-Twins r s ns d t = if-Twins (is_none ns) r s _ _ t (add-Twins r s _ warn d t)

  compare_sums-Twins :
      (declared actual : List (Bytes × Bytes)) (r s : Report)
      → Twins hid r s
      → Twins hid (compare_sums declared actual r) (compare_sums declared actual s)
  unfolding compare_sums
  compare_sums-Twins declared actual r s t =
      let t1 = fail_names-Twins r s _ _ t in
      let t2 = fail_names-Twins _ _ _ _ t1 in
      let t3 = warn_names-Twins _ _ _ _ t2 in if-Twins _ _ _ _ _ (add-Twins _ _ _ ok _ t3) t3

  verify_sums-Twins :
      (m : Sums) (k : Hashes) (r s : Report)
      → Twins hid r s
      → Twins hid (verify_sums m k r) (verify_sums m k s)
  unfolding verify_sums
  verify_sums-Twins no_sums k r s t = add-Twins r s _ warn _ t
  verify_sums-Twins (bad_sums e) k r s t = failing-Twins r s _ _ t
  verify_sums-Twins (sums m) (bad_hashes e) r s t = failing-Twins r s _ _ t
  verify_sums-Twins (sums m) (hashes a) r s t = compare_sums-Twins m a r s t

  judge_segment-Twins :
      (name : Bytes) (n : ℕ) (torn : Bool) (e : Option Bytes) (last : Bool) (r s : Report)
      → Twins hid r s
      → Twins hid (judge_segment name n torn e last r) (judge_segment name n torn e last s)
  unfolding judge_segment
  judge_segment-Twins name n true e true r s t = add-Twins r s _ warn _ t
  judge_segment-Twins name n true e false r s t = failing-Twins r s _ _ t
  judge_segment-Twins name n false (some e) last r s t = failing-Twins r s _ _ t
  judge_segment-Twins name n false none last r s t = add-Twins r s _ ok _ t

  check_segments-Twins :
      (walk : Bytes → Walk) (names : List Bytes) (r s : Report)
      → Twins hid r s
      → Twins hid (check_segments walk names r) (check_segments walk names s)
  unfolding check_segments check_segment
  check_segments-Twins walk [] r s t = t
  check_segments-Twins walk (n ∷ ns) r s t =
      let w = walk n in
      check_segments-Twins walk ns (judge_segment n w.frames w.truncated w.error (is_none ns) r)
        (judge_segment n w.frames w.truncated w.error (is_none ns) s)
        (judge_segment-Twins n w.frames w.truncated w.error (is_none ns) r s t)

  verify_names-Twins :
      (walk : Bytes → Walk) (listed : ℕ) (names : List Bytes) (r s : Report)
      → Twins hid r s
      → Twins hid (verify_names walk listed names r) (verify_names walk listed names s)
  unfolding verify_names check_listed
  verify_names-Twins walk listed [] r s t = failing-Twins r s _ _ t
  verify_names-Twins walk listed (n ∷ ns) r s t =
      let k = check_segments-Twins walk (n ∷ ns) r s t in
      let u = if-Twins _ _ _ _ _ k (add-Twins _ _ _ warn _ k) in
      record { status = u.status; found = u.found }

  verify_segments-Twins :
      (walk : Bytes → Walk) (listed : ℕ) (l : Listing) (r s : Report)
      → Twins hid r s
      → Twins hid (verify_segments walk listed l r) (verify_segments walk listed l s)
  unfolding verify_segments
  verify_segments-Twins walk listed (bad_listing e) r s t = failing-Twins r s _ _ t
  verify_segments-Twins walk listed (files names) r s t =
      verify_names-Twins walk listed (sort_strings names) r s t

  check_drops-Twins :
      (n : ℕ) (r s : Report) → Twins hid r s → Twins hid (check_drops n r) (check_drops n s)
  unfolding check_drops
  check_drops-Twins n r s t =
      if-Twins (ltb 0 n) _ _ _ _ (failing-Twins r s _ _ t) (add-Twins r s _ ok _ t)

  check_filter-Twins :
      (f : Bytes) (r s : Report) → Twins hid r s → Twins hid (check_filter f r) (check_filter f s)
  unfolding check_filter
  check_filter-Twins [] r s t = t
  check_filter-Twins (c ∷ cs) r s t = add-Twins r s _ warn _ t

  check_snaplen-Twins :
      (n : ℕ) (r s : Report) → Twins hid r s → Twins hid (check_snaplen n r) (check_snaplen n s)
  unfolding check_snaplen
  check_snaplen-Twins n r s t = if-Twins (ltb 0 n) _ _ _ _ (add-Twins r s _ warn _ t) t

  walk_anchors-Twins :
      (i mono n : ℕ) (as' : List Anchor) (r s : Report)
      → Twins hid r s
      → Twins hid (walk_anchors i mono n as' r) (walk_anchors i mono n as' s)
  unfolding walk_anchors finish_anchors
  walk_anchors-Twins i mono zero [] r s t = add-Twins r s _ ok _ t
  walk_anchors-Twins i mono (suc n) [] r s t = add-Twins r s _ warn _ t
  walk_anchors-Twins i mono n (a ∷ as') r s t =
      if-Twins _ _ _ _ _ (failing-Twins r s _ _ t) (walk_anchors-Twins (i + 1) a.mono _ as' r s t)

  verify_anchors-Twins :
      (as' : List Anchor) (r s : Report)
      → Twins hid r s
      → Twins hid (verify_anchors as' r) (verify_anchors as' s)
  unfolding verify_anchors
  verify_anchors-Twins [] r s t = add-Twins r s _ warn _ t
  verify_anchors-Twins (a ∷ as') r s t = walk_anchors-Twins 1 a.mono 0 as' r s t

  check_permissions-Twins :
      (l : Option (List Bytes)) (r s : Report)
      → Twins hid r s
      → Twins hid (check_permissions l r) (check_permissions l s)
  unfolding check_permissions
  check_permissions-Twins none r s t = t
  check_permissions-Twins (some []) r s t = add-Twins r s _ ok _ t
  check_permissions-Twins (some (f ∷ fs)) r s t = add-Twins r s _ warn _ t

  check_sensitive-Twins :
      (b : Bool) (r s : Report)
      → Twins hid r s
      → Twins hid (check_sensitive b r) (check_sensitive b s)
  unfolding check_sensitive
  check_sensitive-Twins true r s t = t
  check_sensitive-Twins false r s t = failing-Twins r s _ _ t

  warn_torn-Twins :
      (b : Bool) (r s : Report) → Twins hid r s → Twins hid (warn_torn b r) (warn_torn b s)
  unfolding warn_torn
  warn_torn-Twins true r s t = add-Twins r s _ warn _ t
  warn_torn-Twins false r s t = t

  finish_index-Twins :
      (bad n : ℕ) (r s : Report)
      → Twins hid r s
      → Twins hid (finish_index bad n r) (finish_index bad n s)
  unfolding finish_index
  finish_index-Twins zero zero r s t = t
  finish_index-Twins zero (suc n) r s t = add-Twins r s _ ok _ t
  finish_index-Twins (suc b) n r s t = add-Twins r s _ warn _ t

  verify_index-Twins :
      (exists : Bytes → Bool) (x : Option Index) (r s : Report)
      → Twins hid r s
      → Twins hid (verify_index exists x r) (verify_index exists x s)
  unfolding verify_index
  verify_index-Twins exists none r s t = t
  verify_index-Twins exists (some x) r s t =
      finish_index-Twins _ _ _ _ (warn_torn-Twins x.torn r s t)

  pub examined-Twins :
      (b : Bundle) (meta : Metadata) (r s : Report)
      → Twins hid r s
      → Twins hid (examined b meta r) (examined b meta s)
  unfolding examined
  examined-Twins b meta r s t = verify_index-Twins b.exists b.index _ _ (
      check_sensitive-Twins meta.sensitive _ _ (
        check_permissions-Twins b.loose _ _ (
          verify_anchors-Twins meta.anchors _ _ (
            check_snaplen-Twins meta.snaplen _ _ (
              check_filter-Twins meta.capture_filter _ _ (
                check_drops-Twins meta.packets_dropped _ _ (
                  verify_segments-Twins b.walk meta.segments b.listing _ _ (
                    verify_sums-Twins b.sums b.hashes _ _
                      (check_end-Twins meta.utc_end meta.termination r s t)))))))))
