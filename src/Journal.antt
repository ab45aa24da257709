-- ===== src/Journal.antt =====
-- sc-capture/internal/journal/segment.go, with the counters of a segment in pcapng.go. Whether a
-- file operation succeeds, the readings of the clock and the text of a time in a file's name are
-- arguments; what the pcapng library writes is not modelled.
pub mod Totals
pub mod Sums
pub mod Citations
use star_konflict.Base.{
  ℕ, suc, ◌+◌, ◌-◌, ◌%◌, Bool, true, false, ◌||◌, List, [], ◌∷◌, ◌++◌, Bytes, text, Option, none,
  some, leb, ltb, if◌then◌else◌, length, replicate, u64_mod,
}
use star_konflict.Base.Decimal.{decimal}

-- `200 << 20`, ten minutes and a second in nanoseconds, `4 << 20`.
abbrev pub max_segment_bytes : ℕ
max_segment_bytes = 209715200

abbrev pub max_segment_duration : ℕ
max_segment_duration = 600000000000

abbrev pub flush_interval : ℕ
flush_interval = 1000000000

abbrev pub flush_bytes : ℕ
flush_bytes = 4194304

pub record SegmentInfo : Type 0 where
  pub file : Bytes
  pub first_frame_at : Option ℕ
  pub last_frame_at : Option ℕ
  pub frames : ℕ

-- `path` is the base name.
pub record Segment : Type 0 where
  pub path : Bytes
  pub frames : ℕ
  pub bytes : ℕ
  pub unflushed : ℕ

pub record Writer : Type 0 where
  pub seg : Option Segment
  pub seg_num : ℕ
  pub seg_open : ℕ
  pub first : Option ℕ
  pub last : Option ℕ
  pub segments : List SegmentInfo
  pub total_frames : ℕ
  pub total_bytes : ℕ
  pub last_flush : ℕ

-- What the file system lets a call do.
pub record Files : Type 0 where
  pub opens : Bool
  pub closes : Bool
  pub writes : Bool
  pub syncs : Bool

unfoldable pub info : Writer → Segment → SegmentInfo
info w s = record {
  file = s.path;
  first_frame_at = w.first;
  last_frame_at = w.last;
  frames = s.frames;
}

-- The Boolean of a result says that there was no error.
unfoldable pub finish_segment : Files → Writer → Option Segment → Writer × Bool
finish_segment fs w none = (w, true)
finish_segment fs w (some s) =
    if fs.closes
    then (record w { segments = w.segments ++ info w s ∷ []; seg = none }, true)
    else (w, false)

-- `NewWriter`: `none` for its error.
unfoldable pub opened : Writer × Bool → Option Writer
opened (w, true) = some w
opened (w, false) = none

module _ (stamp : ℕ → Bytes) where
  -- `capture_%05d_<time>.pcapng`.
  unfoldable pub segment_name : ℕ → ℕ → Bytes
  segment_name n at =
      text "capture_"
      ++ (replicate (5 - length (decimal n)) b'0'
          ++ (decimal n ++ (b'_' ∷ (stamp at ++ text ".pcapng"))))

  unfoldable pub open_next : Files → Writer → ℕ → Writer × Bool
  open_next fs w now =
      let numbered = record w { seg_num = w.seg_num + 1 } in
      if fs.opens
      then (
        record numbered {
          seg = some (record {
            path = segment_name (w.seg_num + 1) now;
            frames = 0;
            bytes = 0;
            unflushed = 0;
          });
          seg_open = now;
          first = none;
          last = none;
          last_flush = now;
        },
        true,
      )
      else (numbered, false)

  unfoldable pub after_finish : Files → ℕ → Writer × Bool → Writer × Bool
  after_finish fs now (w, true) = open_next fs w now
  after_finish fs now (w, false) = (w, false)

  unfoldable pub rotate : Files → Writer → ℕ → Writer × Bool
  rotate fs w now = after_finish fs now (finish_segment fs w w.seg)

  unfoldable pub new_writer : Files → ℕ → Option Writer
  new_writer fs now = opened (
      rotate fs
        (record {
          seg = none;
          seg_num = 0;
          seg_open = 0;
          first = none;
          last = none;
          segments = [];
          total_frames = 0;
          total_bytes = 0;
          last_flush = 0;
        })
        now)

-- What `Write` returns; `panicked` is the nil pointer of a writer without a segment.
pub data Written : Type 0 where
  wrote : Bytes → ℕ → Written
  write_error : Written
  panicked : Written

unfoldable pub first_or : Option ℕ → ℕ → Option ℕ
first_or none t = some t
first_or (some f) t = some f

-- `if w.seg.unflushed >= FlushBytes || …`; `clock` is the reading of `time.Since`, `later` that of
-- `time.Now()`.
unfoldable pub flush_due : Files → Writer → Segment → ℕ → ℕ → Bytes → ℕ → Writer × Written
flush_due fs w s clock later name index =
    if leb flush_bytes s.unflushed || leb flush_interval (clock - w.last_flush)
    then (if fs.syncs
        then (
          record w { seg = some (record s { unflushed = 0 }); last_flush = later },
          wrote name index,
        )
        else (w, write_error))
    else (w, wrote name index)

-- From `index = w.seg.frames` on.
unfoldable pub write_in : Files → Writer → Option Segment → ℕ → ℕ → ℕ → ℕ → Writer × Written
write_in fs w none now size clock later = (w, panicked)
write_in fs w (some s) now size clock later =
    let t = record s {
      frames = (s.frames + 1) % u64_mod;
      bytes = (s.bytes + size) % u64_mod;
      unflushed = (s.unflushed + size) % u64_mod;
    } in
    let v = record w {
      seg = some t;
      first = first_or w.first now;
      last = some now;
      total_frames = (w.total_frames + 1) % u64_mod;
      total_bytes = (w.total_bytes + size) % u64_mod;
    } in
    if fs.writes then flush_due fs v t clock later s.path s.frames else (w, write_error)

unfoldable pub write_rotated : Files → Writer × Bool → ℕ → ℕ → ℕ → ℕ → Writer × Written
write_rotated fs (w, true) now size clock later = write_in fs w w.seg now size clock later
write_rotated fs (w, false) now size clock later = (w, write_error)

module _ (stamp : ℕ → Bytes) where
  unfoldable pub write_to : Files → Writer → Option Segment → ℕ → ℕ → ℕ → ℕ → Writer × Written
  write_to fs w none now size clock later = (w, panicked)
  write_to fs w (some s) now size clock later =
      if leb max_segment_bytes s.bytes || leb max_segment_duration (clock - w.seg_open)
      then write_rotated fs (rotate stamp fs w now) now size clock later
      else write_in fs w (some s) now size clock later

  -- `Write` of a frame of `size` bytes at the time `now`.
  unfoldable pub write : Files → Writer → ℕ → ℕ → ℕ → ℕ → Writer × Written
  write fs w now size clock later = write_to fs w w.seg now size clock later

unfoldable pub tick_segment : Files → Writer → Option Segment → ℕ → ℕ → Writer × Bool
tick_segment fs w none clock later = (w, true)
tick_segment fs w (some s) clock later =
    if ltb (clock - w.last_flush) flush_interval
    then (w, true)
    else if fs.syncs
    then (record w { seg = some (record s { unflushed = 0 }); last_flush = later }, true)
    else (w, false)

unfoldable pub tick : Files → Writer → ℕ → ℕ → Writer × Bool
tick fs w clock later = tick_segment fs w w.seg clock later

-- `Stats`: frames and bytes.
abbrev pub stats : Writer → ℕ × ℕ
stats w = (w.total_frames, w.total_bytes)

unfoldable pub with_open : Writer → Option Segment → List SegmentInfo
with_open w none = w.segments
with_open w (some s) = w.segments ++ info w s ∷ []

unfoldable pub segments : Writer → List SegmentInfo
segments w = with_open w w.seg

unfoldable pub close : Files → Writer → Writer × Bool
close fs w = finish_segment fs w w.seg
