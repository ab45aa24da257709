-- ===== src/Journal/Totals.antt =====
-- The frames that sc-capture/internal/journal/segment.go reports, in all and by segment.
use star_konflict.Base.{
  ℕ, ◌+◌, ◌%◌, Bool, true, false, List, [], ◌∷◌, ◌++◌, Bytes, Option, none, some, if◌then◌else◌,
  u64_mod, ◌≡◌, refl, sym, ap, ◌∙◌, arith, Bool-cases, inl, inr,
}
use mathlib.Core.Path.{subst}
use star_konflict.Journal.{
  Files, Segment, SegmentInfo, Writer, info, finish_segment, open_next, after_finish, rotate,
  opened, new_writer, flush_due, write_in, write_rotated, write_to, write, tick_segment, tick,
  stats, with_open, segments, close,
}

abbrev pub sum : List SegmentInfo → ℕ
sum [] = 0
sum (s ∷ ss) = s.frames + sum ss

sum-append : (ss : List SegmentInfo) (s : SegmentInfo) → sum (ss ++ s ∷ []) ≡ sum ss + s.frames
sum-append [] s = omega arith
sum-append (t ∷ ss) s = omega (arith, sum-append ss s)

abbrev open_frames : Option Segment → ℕ
open_frames none = 0
open_frames (some s) = s.frames

-- The total is the sum over the finished segments and the open one.
record Totalled (w : Writer) : Type 0 where
  total : w.total_frames ≡ (sum w.segments + open_frames w.seg) % u64_mod

finish_segment-Totalled :
    (fs : Files) (w : Writer) (o : Option Segment)
    → w.seg ≡ o
    → Totalled w
    → Totalled (finish_segment fs w o).0
unfolding finish_segment info
finish_segment-Totalled fs w none e t = t
finish_segment-Totalled fs w (some s) e t = elim (Bool-cases fs.closes) [
  | inl y ↦ rw y (record {
    total = omega (arith, t.total, ap open_frames e, sum-append w.segments (info w s));
  })
  | inr u ↦ rw u t
]

-- Behind a call that finished a segment, or had none to finish, no segment is open.
finish_segment-none :
    (fs : Files) (w : Writer) (o : Option Segment)
    → w.seg ≡ o
    → (finish_segment fs w o).1 ≡ true
    → (finish_segment fs w o).0.seg ≡ none
unfolding finish_segment
finish_segment-none fs w none e h = e
finish_segment-none fs w (some s) e h = elim (Bool-cases fs.closes) [
  | inl y ↦ rw y
  | inr u ↦ cc (rw u at h)
]

module _ (stamp : ℕ → Bytes) where
  open_next-Totalled :
      (fs : Files) (w : Writer) (now : ℕ)
      → w.seg ≡ none
      → Totalled w
      → Totalled (open_next stamp fs w now).0
  unfolding open_next
  open_next-Totalled fs w now e t = elim (Bool-cases fs.opens) [
    | inl y ↦ rw y (record { total = omega (arith, t.total, ap open_frames e) })
    | inr u ↦ rw u (record { total = t.total })
  ]

  after_finish-Totalled :
      (fs : Files) (now : ℕ) (r : Writer × Bool)
      → Totalled r.0
      → (r.1 ≡ true → r.0.seg ≡ none)
      → Totalled (after_finish stamp fs now r).0
  unfolding after_finish
  after_finish-Totalled fs now (w, true) t e = open_next-Totalled fs w now (e refl) t
  after_finish-Totalled fs now (w, false) t e = t

  rotate-Totalled :
      (fs : Files) (w : Writer) (now : ℕ) → Totalled w → Totalled (rotate stamp fs w now).0
  unfolding rotate
  rotate-Totalled fs w now t =
      after_finish-Totalled fs now (finish_segment fs w w.seg)
        (finish_segment-Totalled fs w w.seg refl t) (finish_segment-none fs w w.seg refl)

pair_if :
    {A : Type 0} (c : Bool) (r s : Writer × A)
    → Totalled r.0
    → Totalled s.0
    → Totalled (if c then r else s).0
pair_if true r s h k = h
pair_if false r s h k = k

flush_due-Totalled :
    (fs : Files) (w : Writer) (s : Segment) (clock later : ℕ) (name : Bytes) (index : ℕ)
    → w.seg ≡ some s
    → Totalled w
    → Totalled (flush_due fs w s clock later name index).0
unfolding flush_due
flush_due-Totalled fs w s clock later name index e t =
    pair_if _ _ _
      (pair_if fs.syncs _ _
        (record { total = t.total ∙ ap (λ o. (sum w.segments + open_frames o) % u64_mod) e }) t)
      t

write_in-Totalled :
    (fs : Files) (w : Writer) (o : Option Segment) (now size clock later : ℕ)
    → w.seg ≡ o
    → Totalled w
    → Totalled (write_in fs w o now size clock later).0
unfolding write_in
write_in-Totalled fs w none now size clock later e t = t
write_in-Totalled fs w (some s) now size clock later e t =
    pair_if fs.writes _ _
      (flush_due-Totalled fs _ _ clock later s.path s.frames refl
        (record { total = omega (arith, t.total, ap open_frames e) }))
      t

write_rotated-Totalled :
    (fs : Files) (r : Writer × Bool) (now size clock later : ℕ)
    → Totalled r.0
    → Totalled (write_rotated fs r now size clock later).0
unfolding write_rotated
write_rotated-Totalled fs (w, true) now size clock later t =
    write_in-Totalled fs w w.seg now size clock later refl t
write_rotated-Totalled fs (w, false) now size clock later t = t

tick-Totalled :
    (fs : Files) (w : Writer) (clock later : ℕ) → Totalled w → Totalled (tick fs w clock later).0
unfolding tick
tick-Totalled fs w clock later t = by_segment w.seg refl
  where
    by_segment : (o : Option Segment) → w.seg ≡ o → Totalled (tick_segment fs w o clock later).0
    by_segment none e = unfold tick_segment in t
    by_segment (some s) e =
        unfold tick_segment in
        pair_if _ _ _ t (
          pair_if fs.syncs _ _
            (record { total = t.total ∙ ap (λ o. (sum w.segments + open_frames o) % u64_mod) e }) t)

-- A call, with what the file system lets it do and its readings of the clock.
pub data Call : Type 0 where
  write_call : Files → ℕ → ℕ → ℕ → ℕ → Call
  tick_call : Files → ℕ → ℕ → Call
  close_call : Files → Call

module _ (stamp : ℕ → Bytes) where
  write_to-Totalled :
      (fs : Files) (w : Writer) (o : Option Segment) (now size clock later : ℕ)
      → w.seg ≡ o
      → Totalled w
      → Totalled (write_to stamp fs w o now size clock later).0
  unfolding write_to
  write_to-Totalled fs w none now size clock later e t = t
  write_to-Totalled fs w (some s) now size clock later e t =
      pair_if _ _ _
        (write_rotated-Totalled fs (rotate stamp fs w now) now size clock later
          (rotate-Totalled stamp fs w now t))
        (write_in-Totalled fs w (some s) now size clock later e t)

  abbrev pub after_call : Writer → Call → Writer
  after_call w (write_call fs now size clock later) = (write stamp fs w now size clock later).0
  after_call w (tick_call fs clock later) = (tick fs w clock later).0
  after_call w (close_call fs) = (close fs w).0

  abbrev pub run : Writer → List Call → Writer
  run w [] = w
  run w (c ∷ cs) = run (after_call w c) cs

  after_call-Totalled : (w : Writer) (c : Call) → Totalled w → Totalled (after_call w c)
  unfolding write close
  after_call-Totalled w (write_call fs now size clock later) t =
      write_to-Totalled fs w w.seg now size clock later refl t
  after_call-Totalled w (tick_call fs clock later) t = tick-Totalled fs w clock later t
  after_call-Totalled w (close_call fs) t = finish_segment-Totalled fs w w.seg refl t

  run-Totalled : (cs : List Call) (w : Writer) → Totalled w → Totalled (run w cs)
  run-Totalled [] w t = t
  run-Totalled (c ∷ cs) w t = run-Totalled cs (after_call w c) (after_call-Totalled w c t)

sum_segments : (w : Writer) → sum (segments w) ≡ sum w.segments + open_frames w.seg
unfolding segments
sum_segments w = by_segment w.seg
  where
    by_segment : (o : Option Segment) → sum (with_open w o) ≡ sum w.segments + open_frames o
    by_segment none = unfold with_open in omega arith
    by_segment (some s) = unfold with_open info in sum-append w.segments (info w s)

opened-Totalled : (r : Writer × Bool) (w : Writer) → opened r ≡ some w → Totalled r.0 → Totalled w
unfolding opened
opened-Totalled (v, true) w e t = let same_writer : v ≡ w = cc e in subst Totalled same_writer t
opened-Totalled (v, false) w e t = cc e

-- Whatever file operations fail and whatever the clocks read, after any calls of `Write`, `Tick`
-- and `Close` on a new writer the frames that `Stats` reports are the sum over the
-- segments that `Segments` reports (modulo 2^64), also across rotations that fail.
pub segments_add_up :
    (stamp : ℕ → Bytes) (fs : Files) (now : ℕ) (cs : List Call) {w : Writer}
    → new_writer stamp fs now ≡ some w
    → (stats (run stamp w cs)).0 ≡ sum (segments (run stamp w cs)) % u64_mod
unfolding new_writer
segments_add_up stamp fs now cs {w} e =
    let start = opened-Totalled _ w e (rotate-Totalled stamp fs _ now (record { total = refl })) in
    let t = run-Totalled stamp cs w start in
    t.total ∙ ap (λ n. n % u64_mod) (sym (sum_segments (run stamp w cs)))
