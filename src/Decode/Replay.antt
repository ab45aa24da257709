-- ===== src/Decode/Replay.antt =====
-- sc-capture/internal/decode/replay.go. What the file system and the pcapng library find is given
-- as values: the entries of the directory, and for each segment how far it can be read.
pub mod Frames
use star_konflict.Base.{
  ℕ, suc, ◌+◌, ◌%◌, Bool, true, false, not, ◌&&◌, ◌||◌, List, [], ◌∷◌, ◌++◌, Bytes, text, Option,
  none, some, if◌then◌else◌, u64_mod,
}
use star_konflict.Base.Int.{ℤ, pos, diff}
use star_konflict.Base.Strings.{has_suffix, contains, sort_strings}
use star_konflict.Flow.{Table}
use star_konflict.Scproto.Tables.{Tables}
use star_konflict.Decode.Pipeline.{Arriving, Packet, Pipeline, new_pipeline, feed}

-- An error: its text, and whether it is `io.EOF` itself.
pub record Error : Type 0 where
  pub is_eof : Bool
  pub message : Bytes

-- How the packets of a segment end.
pub data Ending : Type 0 where
  at_eof : Ending
  broken : Error → Ending

-- What a segment's file holds: packets with their times, and an ending.
pub data Content : Type 0 where
  cannot_open : Error → Content
  bad_header : Error → Content
  packets : List (Bytes × ℕ) → Ending → Content

-- An entry of the directory.
pub record DirEntry : Type 0 where
  pub name : Bytes
  pub is_dir : Bool

unfoldable pub segment_names : List DirEntry → List Bytes
segment_names [] = []
segment_names (e ∷ es) =
    if not e.is_dir && has_suffix e.name (text ".pcapng")
    then e.name ∷ segment_names es
    else segment_names es

-- `Segments`; `none` for a directory that cannot be read.
unfoldable pub list_segments : Option (List DirEntry) → Option (List Bytes)
list_segments none = none
list_segments (some es) = some (sort_strings (segment_names es))

-- `none` is `start.IsZero()`.
unfoldable pub since : Option ℕ → ℕ → ℤ
since none at = pos 0
since (some start) at = diff at start

-- `not a readable pcapng: %w`.
unfoldable pub wrapped : Error → Error
wrapped e = record { is_eof = false; message = text "not a readable pcapng: " ++ e.message }

unfoldable pub ending_error : Ending → Option Error
ending_error at_eof = none
ending_error (broken e) = if e.is_eof then none else some e

-- The errors that `Replay` passes over.
unfoldable pub is_torn : Error → Bool
is_torn e = contains e.message (text "unexpected EOF") || e.is_eof

-- What `Replay` returns; each error comes with what was decoded until then.
pub data Replayed : Type 0 where
  unlisted no_segments : Replayed
  stopped : Bytes → Error → Pipeline → Replayed
  replayed : Pipeline → Replayed

module _ (names : Tables) (packet : Bytes → Option Packet) (start : Option ℕ) where
  -- The loop of `replaySegment`; `idx` counts the packets.
  unfoldable pub feed_packets : Bytes → ℕ → Pipeline → List (Bytes × ℕ) → Pipeline
  feed_packets name idx p [] = p
  feed_packets name idx p ((bytes, at) ∷ ps) =
      feed_packets name ((idx + 1) % u64_mod)
        (feed names packet
          (record {
            ref = record { segment = name; index = idx };
            wall = at;
            mono = since start at;
          })
          p bytes)
        ps

  unfoldable pub replay_segment : Pipeline → Bytes → Content → Pipeline × Option Error
  replay_segment p name (cannot_open e) = (p, some e)
  replay_segment p name (bad_header e) = (p, some (wrapped e))
  replay_segment p name (packets ps end) = (feed_packets name 0 p ps, ending_error end)

  module _ (content : Bytes → Content) where
    unfoldable pub replay_from : Pipeline → List Bytes → Replayed
    replay_from p [] = replayed p
    replay_from p (name ∷ ns) =
        let (q, e) = replay_segment p name (content name) in
        elim e [
          | none ↦ replay_from q ns
          | some f ↦ elim (is_torn f) [ true ↦ replay_from q ns | false ↦ stopped name f q ]
        ]

    unfoldable pub replay_listed : Table → Option (List Bytes) → Replayed
    replay_listed t none = unlisted
    replay_listed t (some []) = no_segments
    replay_listed t (some (n ∷ ns)) = replay_from (new_pipeline t) (n ∷ ns)

    unfoldable pub replay : Table → Option (List DirEntry) → Replayed
    replay t dir = replay_listed t (list_segments dir)
