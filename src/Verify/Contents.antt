-- ===== src/Verify/Contents.antt =====
-- The report of sc-capture/internal/verify/verify.go and what the functions there read from the
-- bundle's directory. A finding's text is the constructor of `Detail` with the arguments of its
-- format.
use star_konflict.Base.{ℕ, Bool, true, false, List, [], ◌∷◌, ◌++◌, Bytes, Option}
use star_konflict.Base.Map.{bytes_eq}
use star_konflict.Session.Clock.{Anchor}

pub data Status : Type 0 where
  clean interrupted failed : Status

pub data Level : Type 0 where
  ok warn fail : Level

pub data Detail : Type 0 where
  message : Bytes → Detail
  version : Bytes → Detail
  id_differs : Bytes → Bytes → Detail
  dropped : ℕ → Detail
  filtered : Bytes → Detail
  truncated_to : ℕ → Detail
  readable : List Bytes → Detail
  mismatched : List Bytes → Detail
  absent : List Bytes → Detail
  unlisted : List Bytes → Detail
  matching : ℕ → Detail
  segment_error : Bytes → Bytes → Detail
  torn_tail : Bytes → ℕ → Detail
  torn_middle : Bytes → Detail
  segment_frames : Bytes → ℕ → Detail
  segment_count : ℕ → ℕ → Detail
  backwards : ℕ → ℕ → Detail
  steps : ℕ → Detail
  anchors : ℕ → Detail
  bad_citations : ℕ → Detail
  records : ℕ → Detail

pub record Finding : Type 0 where
  pub check : Bytes
  pub level : Level
  pub detail : Detail

pub record Report : Type 0 where
  pub status : Status
  pub mode : Bytes
  pub rewrites : ℕ
  pub frames : ℕ
  pub segments : ℕ
  pub drops : ℕ
  pub findings : List Finding

-- `other` is any text but the two that are tested.
pub data Termination : Type 0 where
  clean_close disk_floor other : Termination

-- What `Verify` reads of session.json.
pub record Metadata : Type 0 where
  pub schema_version : Bytes
  pub bundle_id : Bytes
  pub mode : Bytes
  pub rewrites : ℕ
  pub termination : Termination
  pub utc_end : Option ℕ
  pub packets_dropped : ℕ
  pub capture_filter : Bytes
  pub snaplen : ℕ
  pub anchors : List Anchor
  pub segments : ℕ
  pub sensitive : Bool

pub data Loaded : Type 0 where
  schema_unreadable : Loaded
  not_loaded : Bytes → Loaded
  loaded : Metadata → Loaded

pub data Sums : Type 0 where
  no_sums : Sums
  bad_sums : Bytes → Sums
  sums : List (Bytes × Bytes) → Sums

pub data Hashes : Type 0 where
  bad_hashes : Bytes → Hashes
  hashes : List (Bytes × Bytes) → Hashes

-- What `walkSegment` finds: the frames, whether the file ends inside one, and the error's text.
pub record Walk : Type 0 where
  pub frames : ℕ
  pub truncated : Bool
  pub error : Option Bytes

pub data Listing : Type 0 where
  bad_listing : Bytes → Listing
  files : List Bytes → Listing

-- The decoded records of index.jsonl, each with its cited segments, and whether the last is torn.
pub record Index : Type 0 where
  pub cites : List (List Bytes)
  pub torn : Bool

pub record Bundle : Type 0 where
  pub base : Bytes
  pub meta : Loaded
  pub sums : Sums
  pub hashes : Hashes
  pub listing : Listing
  pub walk : Bytes → Walk
  pub loose : Option (List Bytes)
  pub index : Option Index
  pub exists : Bytes → Bool

unfoldable pub add : Report → Bytes → Level → Detail → Report
add r check level detail = record r {
  findings = r.findings ++ record { check = check; level = level; detail = detail } ∷ [];
}

-- `res.Status = StatusFailed` and a finding of level `fail`.
unfoldable pub failing : Report → Bytes → Detail → Report
failing r check detail = add (record r { status = failed }) check fail detail

unfoldable pub is_failed : Status → Bool
is_failed failed = true
is_failed _ = false
