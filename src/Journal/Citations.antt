-- ===== src/Journal/Citations.antt =====
-- What `Write` of sc-capture/internal/journal/segment.go returns for each frame, across rotations,
-- while no file operation fails.
use mathlib.Core.Path.{subst}
use star_konflict.Base.{
  ℕ, zero, suc, ◌+◌, ◌-◌, ◌%◌, ◌<◌, ◌≤◌, ◌≡◌, refl, sym, ap, ◌∙◌, Bool, true, false, List, [], ◌∷◌,
  ◌++◌, Bytes, Option, none, some, if◌then◌else◌, ltb, length, length-append, u64_mod, append_assoc,
  append-nil, arith, Bool-cases, inl, inr,
}
use star_konflict.Journal.{
  Files, Segment, SegmentInfo, Writer, Written, wrote, write_error, panicked, info, finish_segment,
  open_next, after_finish, rotate, opened, new_writer, flush_due, write_in, write_rotated, write_to,
  write, tick_segment, tick, with_open, segments, segment_name, flush_interval,
}

-- The citations of the first `n` frames of a segment.
abbrev pub number : Bytes → ℕ → List (Bytes × ℕ)
number file zero = []
number file (suc n) = number file n ++ (file, n) ∷ []

-- The citations of all frames that the segments hold, in order.
abbrev pub citations : List SegmentInfo → List (Bytes × ℕ)
citations [] = []
citations (s ∷ ss) = number s.file s.frames ++ citations ss

-- Every file operation succeeds.
abbrev pub fine : Files
fine = record { opens = true; closes = true; writes = true; syncs = true }

-- A frame of a size at a time, with the readings of the clock, or a tick.
pub data Event : Type 0 where
  frame : ℕ → ℕ → ℕ → ℕ → Event
  tick_event : ℕ → ℕ → Event

abbrev pub frames_in : List Event → ℕ
frames_in [] = 0
frames_in (frame now size clock later ∷ es) = suc (frames_in es)
frames_in (tick_event clock later ∷ es) = frames_in es

citations-append : (ss ts : List SegmentInfo) → citations (ss ++ ts) ≡ citations ss ++ citations ts
citations-append [] ts = refl
citations-append (s ∷ ss) ts =
    ap (λ t. number s.file s.frames ++ t) (citations-append ss ts)
    ∙ sym (append_assoc (number s.file s.frames) (citations ss) (citations ts))

length-number : (file : Bytes) (n : ℕ) → length (number file n) ≡ n
length-number file zero = refl
length-number file (suc n) =
    omega (arith, length-append (number file n) ((file, n) ∷ []), length-number file n)

-- The frames of the finished segments and of the open one have been cited.
record Cited (w : Writer) (s : Segment) (rs : List (Bytes × ℕ)) : Type 0 where
  here : w.seg ≡ some s
  cites : rs ≡ citations w.segments ++ number s.path s.frames

citations-info :
    (w : Writer) (s : Segment)
    → citations (w.segments ++ info w s ∷ []) ≡ citations w.segments ++ number s.path s.frames
unfolding info
citations-info w s =
    citations-append w.segments _
    ∙ ap (λ t. citations w.segments ++ t) (append-nil (number s.path s.frames))

segments-Cited :
    (w : Writer) (s : Segment) {rs : List (Bytes × ℕ)} → Cited w s rs → citations (segments w) ≡ rs
unfolding segments with_open
segments-Cited w s h = ap (λ o. citations (with_open w o)) h.here ∙ citations-info w s ∙ sym h.cites

frames-le-length :
    (w : Writer) (s : Segment) (rs : List (Bytes × ℕ)) → Cited w s rs → s.frames ≤ length rs
frames-le-length w s rs h = omega (
  arith,
  ap length h.cites,
  length-append (citations w.segments) (number s.path s.frames),
  length-number s.path s.frames,
)

-- What a successful call of `Write` does to the citations.
record CitesNext (r : Writer × Written) (rs : List (Bytes × ℕ)) : Type 0 where
  file : Bytes
  index : ℕ
  segment : Segment
  returned : r.1 ≡ wrote file index
  cited : Cited r.0 segment (rs ++ (file, index) ∷ [])

pair_if_cites :
    (c : Bool) (r s : Writer × Written) (rs : List (Bytes × ℕ))
    → CitesNext r rs
    → CitesNext s rs
    → CitesNext (if c then r else s) rs
pair_if_cites true r s rs h k = h
pair_if_cites false r s rs h k = k

flush_due-cites :
    (w : Writer) (s : Segment) (clock later : ℕ) (name : Bytes) (index : ℕ) (rs : List (Bytes × ℕ))
    → Cited w s (rs ++ (name, index) ∷ [])
    → CitesNext (flush_due fine w s clock later name index) rs
unfolding flush_due
flush_due-cites w s clock later name index rs h =
    pair_if_cites _ _ _ rs
      (record {
        file = name;
        index = index;
        segment = record s { unflushed = 0 };
        returned = refl;
        cited = record { here = refl; cites = h.cites };
      })
      (record { file = name; index = index; segment = s; returned = refl; cited = h })

write_in-cites :
    (w : Writer) (o : Option Segment) (s : Segment) (now size clock later : ℕ)
    (rs : List (Bytes × ℕ))
    → o ≡ some s
    → Cited w s rs
    → length rs + 1 < u64_mod
    → CitesNext (write_in fine w o now size clock later) rs
unfolding write_in
write_in-cites w none s now size clock later rs e h b = cc
write_in-cites w (some t) s now size clock later rs e h b =
    let same_segment : t ≡ s = cc in
    let c : Cited w t rs = subst (λ x. Cited w x rs) (sym same_segment) h in
    let next : (t.frames + 1) % u64_mod ≡ suc t.frames = omega (arith, frames-le-length w t rs c) in
    flush_due-cites _ _ clock later t.path t.frames rs (record {
      here = refl;
      cites = rw next (
          ap (λ x. x ++ (t.path, t.frames) ∷ []) c.cites
          ∙ append_assoc (citations w.segments) (number t.path t.frames) ((t.path, t.frames) ∷ []));
    })

-- The writer that `NewWriter` starts from.
abbrev blank : Writer
blank = record {
  seg = none;
  seg_num = 0;
  seg_open = 0;
  first = none;
  last = none;
  segments = [];
  total_frames = 0;
  total_bytes = 0;
  last_flush = 0;
}

module _ (stamp : ℕ → Bytes) where
  -- The segment that a rotation opens.
  abbrev opened_segment : Writer → ℕ → Segment
  opened_segment w now = record {
    path = segment_name stamp (w.seg_num + 1) now;
    frames = 0;
    bytes = 0;
    unflushed = 0;
  }

  -- Opening a segment behind what is finished.
  open_next-Cited :
      (w : Writer) (now : ℕ) (rs : List (Bytes × ℕ))
      → rs ≡ citations w.segments
      → ((open_next stamp fine w now).1 ≡ true)
        × Cited (open_next stamp fine w now).0 (opened_segment w now) rs
  unfolding open_next
  open_next-Cited w now rs h =
      (refl, record { here = refl; cites = h ∙ sym (append-nil (citations w.segments)) })

  finish_segment-Cited :
      (w : Writer) (o : Option Segment) (s : Segment) (now : ℕ) (rs : List (Bytes × ℕ))
      → o ≡ some s
      → rs ≡ citations w.segments ++ number s.path s.frames
      → let r = after_finish stamp fine now (finish_segment fine w o) in
        (r.1 ≡ true) × ((t : Segment) × Cited r.0 t rs)
  unfolding finish_segment after_finish
  finish_segment-Cited w none s now rs e h = cc
  finish_segment-Cited w (some t) s now rs e h =
      let same_segment : t ≡ s = cc in
      let finished = record w { segments = w.segments ++ info w t ∷ []; seg = none } in
      let all =
        subst (λ x. rs ≡ citations w.segments ++ number x.path x.frames) (sym same_segment) h
        ∙ sym (citations-info w t) in
      let (done, c) = open_next-Cited finished now rs all in
      (done, (opened_segment finished now, c))

  rotate-Cited :
      (w : Writer) (s : Segment) (now : ℕ) (rs : List (Bytes × ℕ))
      → Cited w s rs
      → ((rotate stamp fine w now).1 ≡ true)
        × ((t : Segment) × Cited (rotate stamp fine w now).0 t rs)
  unfolding rotate
  rotate-Cited w s now rs h = finish_segment-Cited w w.seg s now rs h.here h.cites

  write_rotated-cites :
      (r : Writer × Bool) (s : Segment) (now size clock later : ℕ) (rs : List (Bytes × ℕ))
      → r.1 ≡ true
      → Cited r.0 s rs
      → length rs + 1 < u64_mod
      → CitesNext (write_rotated fine r now size clock later) rs
  unfolding write_rotated
  write_rotated-cites (w, true) s now size clock later rs e h b =
      write_in-cites w w.seg s now size clock later rs h.here h b
  write_rotated-cites (w, false) s now size clock later rs e h b = cc

  write-cites :
      (w : Writer) (s : Segment) (now size clock later : ℕ) (rs : List (Bytes × ℕ))
      → Cited w s rs
      → length rs + 1 < u64_mod
      → CitesNext (write stamp fine w now size clock later) rs
  unfolding write write_to
  write-cites w s now size clock later rs h b = by_segment w.seg h.here
    where
      by_segment :
          (o : Option Segment)
          → o ≡ some s
          → CitesNext (write_to stamp fine w o now size clock later) rs
      by_segment none e = cc
      by_segment (some t) e =
          let (done, (u, c)) = rotate-Cited w s now rs h in
          pair_if_cites _ _ _ rs (write_rotated-cites _ u now size clock later rs done c b)
            (write_in-cites w (some t) s now size clock later rs e h b)

  tick-Cited :
      (w : Writer) (s : Segment) (clock later : ℕ) (rs : List (Bytes × ℕ))
      → Cited w s rs
      → (t : Segment) × Cited (tick fine w clock later).0 t rs
  unfolding tick tick_segment
  tick-Cited w s clock later rs h = by_segment w.seg refl
    where
      by_segment :
          (o : Option Segment)
          → w.seg ≡ o
          → (t : Segment) × Cited (tick_segment fine w o clock later).0 t rs
      by_segment none e = cc (sym e ∙ h.here)
      by_segment (some t) e =
          let same_segment : t ≡ s = cc (sym e ∙ h.here) in
          let c : Cited w t rs = subst (λ x. Cited w x rs) (sym same_segment) h in
          elim (Bool-cases (ltb (clock - w.last_flush) flush_interval)) [
            | inl y ↦ rw y (t, c)
            | inr n ↦ rw n (record t { unflushed = 0 }, record { here = refl; cites = c.cites })
          ]

  -- The citations that the calls of `Write` return; `none` if one of them returns an error.
  abbrev pub cited_by : Writer × Written → Option (List (Bytes × ℕ)) → Option (List (Bytes × ℕ))
  cited_by (w, wrote f i) none = none
  cited_by (w, wrote f i) (some rs) = some ((f, i) ∷ rs)
  cited_by (w, write_error) o = none
  cited_by (w, panicked) o = none

  abbrev pub returned : Writer → List Event → Option (List (Bytes × ℕ))
  returned w [] = some []
  returned w (frame now size clock later ∷ es) =
      let r = write stamp fine w now size clock later in cited_by r (returned r.0 es)
  returned w (tick_event clock later ∷ es) = returned (tick fine w clock later).0 es

  abbrev pub after : Writer → List Event → Writer
  after w [] = w
  after w (frame now size clock later ∷ es) = after (write stamp fine w now size clock later).0 es
  after w (tick_event clock later ∷ es) = after (tick fine w clock later).0 es

  cited_by-wrote :
      (r : Writer × Written) (o : Option (List (Bytes × ℕ))) {f : Bytes} {i : ℕ}
      {rs : List (Bytes × ℕ)}
      → r.1 ≡ wrote f i
      → o ≡ some rs
      → cited_by r o ≡ some ((f, i) ∷ rs)
  cited_by-wrote (w, wrote g j) o e h = rw h (ground arith)
  cited_by-wrote (w, write_error) o e h = cc
  cited_by-wrote (w, panicked) o e h = cc

  returned-from :
      (es : List Event) (w : Writer) (s : Segment) (rs : List (Bytes × ℕ))
      → Cited w s rs
      → length rs + frames_in es + 1 < u64_mod
      → (more : List (Bytes × ℕ)) × (returned w es ≡ some more)
        × (rs ++ more ≡ citations (segments (after w es)))
  returned-from [] w s rs h b = ([], refl, append-nil rs ∙ sym (segments-Cited w s h))
  returned-from (frame now size clock later ∷ es) w s rs h b =
      let c = write-cites w s now size clock later rs h (omega arith) in
      let one = (c.file, c.index) ∷ [] in
      let (more, r, e) =
        returned-from es _ c.segment (rs ++ one) c.cited (omega (arith, length-append rs one)) in
      (
        (c.file, c.index) ∷ more,
        cited_by-wrote (write stamp fine w now size clock later)
            (returned (write stamp fine w now size clock later).0 es) c.returned r,
        sym (append_assoc rs one more) ∙ e,
      )
  returned-from (tick_event clock later ∷ es) w s rs h b =
      let (t, c) = tick-Cited w s clock later rs h in returned-from es _ t rs c b

  opened-Cited :
      (r : Writer × Bool) (w : Writer) (s : Segment)
      → opened r ≡ some w
      → Cited r.0 s []
      → Cited w s []
  unfolding opened
  opened-Cited (v, true) w s e h =
      let same_writer : v ≡ w = cc e in subst (λ x. Cited x s []) same_writer h
  opened-Cited (v, false) w s e h = cc e

  -- While no file operation fails, whatever the sizes and times of the frames are: every call of
  -- `Write` on a new writer returns a citation, and they are, in order, those of all frames of
  -- all segments that `Segments` reports then, each segment's frames counted from 0. Fewer than
  -- 2^64 frames are written.
  pub returned-segments :
      (now : ℕ) (es : List Event) {w : Writer}
      → new_writer stamp fine now ≡ some w
      → frames_in es + 1 < u64_mod
      → returned w es ≡ some (citations (segments (after w es)))
  unfolding new_writer rotate finish_segment after_finish opened open_next
  returned-segments now es {w} e b =
      let first : Segment = record {
        path = segment_name stamp 1 now;
        frames = 0;
        bytes = 0;
        unflushed = 0;
      } in
      let start : Cited w first [] =
        opened-Cited (rotate stamp fine blank now) w first e
          (record { here = refl; cites = refl }) in
      let (rs, r, c) = returned-from es w first [] start (omega arith) in r ∙ ap some c
