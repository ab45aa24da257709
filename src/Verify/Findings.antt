-- ===== src/Verify/Findings.antt =====
-- The checks of sc-capture/internal/verify/verify.go set the status to `failed` exactly when they
-- make a finding of level `fail`.
use star_konflict.Base.Strings.{sort_strings}
use star_konflict.Base.{
  ℕ, suc, zero, ◌+◌, Bool, true, false, ◌||◌, List, [], ◌∷◌, ◌++◌, Bytes, Option, none, some,
  if◌then◌else◌, ◌≡◌, arith,
}
use star_konflict.Session.Clock.{Anchor}
use star_konflict.Verify.{
  Level, ok, warn, fail, Detail, Finding, Report, Termination, clean_close, disk_floor, other, Sums,
  no_sums, bad_sums, sums, Hashes, bad_hashes, hashes, Walk, Listing, bad_listing, files, Index,
  add, failing, is_failed, check_end, fail_names, warn_names, compare_sums, verify_sums,
  judge_segment, check_segment, check_segments, check_listed, verify_names, verify_segments,
  check_filter, finish_anchors, walk_anchors, verify_anchors, check_permissions, check_sensitive,
  finish_index, warn_torn, verify_index, is_none,
}

abbrev is_fail : Level → Bool
is_fail l = elim l [ fail ↦ true | ok ↦ false | warn ↦ false ]

-- Whether a finding of level `fail` was made.
abbrev pub has_fail : List Finding → Bool
has_fail [] = false
has_fail (f ∷ fs) = is_fail f.level || has_fail fs

pub has_fail-append :
    (fs : List Finding) (f : Finding) → has_fail (fs ++ f ∷ []) ≡ has_fail fs || is_fail f.level
has_fail-append [] f = ground arith
has_fail-append (g ∷ fs) f = ground (arith, has_fail-append fs f)

-- The status says `failed` exactly if there is a finding of level `fail`.
pub record Agrees (r : Report) : Type 0 where
  pub says : is_failed r.status ≡ has_fail r.findings

pub failing-Agrees : (r : Report) (check : Bytes) (d : Detail) → Agrees (failing r check d)
unfolding failing add is_failed
failing-Agrees r check d = record {
  says =
      ground
        (arith, has_fail-append r.findings (record { check = check; level = fail; detail = d }));
}

pub add_ok-Agrees : (r : Report) (check : Bytes) (d : Detail) → Agrees r → Agrees (add r check ok d)
unfolding add
add_ok-Agrees r check d h = record {
  says = ground (
    arith,
    h.says,
    has_fail-append r.findings (record { check = check; level = ok; detail = d }),
  );
}

pub add_warn-Agrees :
    (r : Report) (check : Bytes) (d : Detail) → Agrees r → Agrees (add r check warn d)
unfolding add
add_warn-Agrees r check d h = record {
  says = ground (
    arith,
    h.says,
    has_fail-append r.findings (record { check = check; level = warn; detail = d }),
  );
}

pub if-Agrees : (c : Bool) (r s : Report) → Agrees r → Agrees s → Agrees (if c then r else s)
if-Agrees true r s h k = h
if-Agrees false r s h k = k

pub check_end-Agrees :
    (e : Option ℕ) (t : Termination) (r : Report) → Agrees r → Agrees (check_end e t r)
unfolding check_end
check_end-Agrees none clean_close r h = failing-Agrees r _ _
check_end-Agrees none disk_floor r h = h
check_end-Agrees none other r h = h
check_end-Agrees (some u) t r h = h

pub fail_names-Agrees :
    (r : Report) (ns : List Bytes) (d : Detail) → Agrees r → Agrees (fail_names r ns d)
unfolding fail_names
fail_names-Agrees r ns d h = if-Agrees (is_none ns) r _ h (failing-Agrees r _ d)

pub warn_names-Agrees :
    (r : Report) (ns : List Bytes) (d : Detail) → Agrees r → Agrees (warn_names r ns d)
unfolding warn_names
warn_names-Agrees r ns d h = if-Agrees (is_none ns) r _ h (add_warn-Agrees r _ d h)

pub compare_sums-Agrees :
    (declared actual : List (Bytes × Bytes)) (r : Report)
    → Agrees r
    → Agrees (compare_sums declared actual r)
unfolding compare_sums
compare_sums-Agrees declared actual r h =
    let h1 = fail_names-Agrees r _ _ h in
    let h2 = fail_names-Agrees _ _ _ h1 in
    let h3 = warn_names-Agrees _ _ _ h2 in if-Agrees _ _ _ (add_ok-Agrees _ _ _ h3) h3

pub verify_sums-Agrees :
    (s : Sums) (k : Hashes) (r : Report) → Agrees r → Agrees (verify_sums s k r)
unfolding verify_sums
verify_sums-Agrees no_sums k r h = add_warn-Agrees r _ _ h
verify_sums-Agrees (bad_sums e) k r h = failing-Agrees r _ _
verify_sums-Agrees (sums m) (bad_hashes e) r h = failing-Agrees r _ _
verify_sums-Agrees (sums m) (hashes a) r h = compare_sums-Agrees m a r h

pub judge_segment-Agrees :
    (name : Bytes) (n : ℕ) (t : Bool) (e : Option Bytes) (last : Bool) (r : Report)
    → Agrees r
    → Agrees (judge_segment name n t e last r)
unfolding judge_segment
judge_segment-Agrees name n true e true r h = add_warn-Agrees r _ _ h
judge_segment-Agrees name n true e false r h = failing-Agrees r _ _
judge_segment-Agrees name n false (some e) last r h = failing-Agrees r _ _
judge_segment-Agrees name n false none last r h = add_ok-Agrees r _ _ h

pub check_segments-Agrees :
    (walk : Bytes → Walk) (names : List Bytes) (r : Report)
    → Agrees r
    → Agrees (check_segments walk names r)
unfolding check_segments check_segment
check_segments-Agrees walk [] r h = h
check_segments-Agrees walk (n ∷ ns) r h =
    let w = walk n in
    check_segments-Agrees walk ns (judge_segment n w.frames w.truncated w.error (is_none ns) r)
      (judge_segment-Agrees n w.frames w.truncated w.error (is_none ns) r h)

pub verify_names-Agrees :
    (walk : Bytes → Walk) (listed : ℕ) (names : List Bytes) (r : Report)
    → Agrees r
    → Agrees (verify_names walk listed names r)
unfolding verify_names check_listed
verify_names-Agrees walk listed [] r h = failing-Agrees r _ _
verify_names-Agrees walk listed (n ∷ ns) r h =
    let k = check_segments-Agrees walk (n ∷ ns) r h in
    record { says = (if-Agrees _ _ _ k (add_warn-Agrees _ _ _ k)).says }

pub verify_segments-Agrees :
    (walk : Bytes → Walk) (listed : ℕ) (l : Listing) (r : Report)
    → Agrees r
    → Agrees (verify_segments walk listed l r)
unfolding verify_segments
verify_segments-Agrees walk listed (bad_listing e) r h = failing-Agrees r _ _
verify_segments-Agrees walk listed (files names) r h =
    verify_names-Agrees walk listed (sort_strings names) r h

pub check_filter-Agrees : (f : Bytes) (r : Report) → Agrees r → Agrees (check_filter f r)
unfolding check_filter
check_filter-Agrees [] r h = h
check_filter-Agrees (c ∷ cs) r h = add_warn-Agrees r _ _ h

pub finish_anchors-Agrees :
    (n count : ℕ) (r : Report) → Agrees r → Agrees (finish_anchors n count r)
unfolding finish_anchors
finish_anchors-Agrees zero count r h = add_ok-Agrees r _ _ h
finish_anchors-Agrees (suc n) count r h = add_warn-Agrees r _ _ h

pub walk_anchors-Agrees :
    (i mono n : ℕ) (as' : List Anchor) (r : Report)
    → Agrees r
    → Agrees (walk_anchors i mono n as' r)
unfolding walk_anchors
walk_anchors-Agrees i mono n [] r h = finish_anchors-Agrees n i r h
walk_anchors-Agrees i mono n (a ∷ as') r h =
    if-Agrees _ _ _ (failing-Agrees r _ _) (walk_anchors-Agrees (i + 1) a.mono _ as' r h)

pub verify_anchors-Agrees :
    (as' : List Anchor) (r : Report) → Agrees r → Agrees (verify_anchors as' r)
unfolding verify_anchors
verify_anchors-Agrees [] r h = add_warn-Agrees r _ _ h
verify_anchors-Agrees (a ∷ as') r h = walk_anchors-Agrees 1 a.mono 0 as' r h

pub check_permissions-Agrees :
    (l : Option (List Bytes)) (r : Report) → Agrees r → Agrees (check_permissions l r)
unfolding check_permissions
check_permissions-Agrees none r h = h
check_permissions-Agrees (some []) r h = add_ok-Agrees r _ _ h
check_permissions-Agrees (some (f ∷ fs)) r h = add_warn-Agrees r _ _ h

pub check_sensitive-Agrees : (b : Bool) (r : Report) → Agrees r → Agrees (check_sensitive b r)
unfolding check_sensitive
check_sensitive-Agrees true r h = h
check_sensitive-Agrees false r h = failing-Agrees r _ _

pub finish_index-Agrees : (bad n : ℕ) (r : Report) → Agrees r → Agrees (finish_index bad n r)
unfolding finish_index
finish_index-Agrees zero zero r h = h
finish_index-Agrees zero (suc n) r h = add_ok-Agrees r _ _ h
finish_index-Agrees (suc b) n r h = add_warn-Agrees r _ _ h

pub warn_torn-Agrees : (t : Bool) (r : Report) → Agrees r → Agrees (warn_torn t r)
unfolding warn_torn
warn_torn-Agrees true r h = add_warn-Agrees r _ _ h
warn_torn-Agrees false r h = h

pub verify_index-Agrees :
    (exists : Bytes → Bool) (x : Option Index) (r : Report)
    → Agrees r
    → Agrees (verify_index exists x r)
unfolding verify_index
verify_index-Agrees exists none r h = h
verify_index-Agrees exists (some x) r h = finish_index-Agrees _ _ _ (warn_torn-Agrees x.torn r h)
