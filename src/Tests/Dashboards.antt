-- ===== src/Tests/Dashboards.antt =====
-- The dashboard on a small store, and a replay of a journal.
use star_konflict.Base.{
  ℕ, ◌≡◌, refl, false, List, [], ◌∷◌, Bytes, text, some, none, Option, arith, map, same,
}
use star_konflict.Base.Int.{pos}
use star_konflict.Base.Strings.{sort_strings, insert_string, has_suffix}
use star_konflict.Dashboard.{Element, Store, totals, journey, counts_for_journey, no_text}
use star_konflict.Dashboard.Ends.{IsConsistent, last_value, journey_ends_at_never}
use star_konflict.Scproto.Tables.{no_tables}
use star_konflict.Flow.{new_table}
use star_konflict.Decode.Pipeline.{Arriving, Packet, new_pipeline}
use star_konflict.Decode.Pipeline.Numbered.{feed_all}
use star_konflict.Decode.Replay.{
  at_eof, Content, packets, ending_error, DirEntry, list_segments, segment_names, replayed, replay,
}
use star_konflict.Decode.Replay.Frames.{citation, Holds, replay_cites_live}
use star_konflict.Base.Decimal.{decimal, digits_loop}
use star_konflict.Journal.{
  SegmentInfo, Writer, new_writer, segments, segment_name, opened, rotate, after_finish,
  finish_segment, open_next, with_open, info, write, write_to, write_in, flush_due, first_or,
}
use star_konflict.Journal.Citations.{fine, frame, Event, returned, after}

abbrev seen_type : Element
seen_type = record {
  kind = text "message_type";
  id = 13;
  name = [];
  state = text "decoded";
  first_seen_session = b's' ∷ [];
  first_seen_utc = b'1' ∷ [];
  observations = 2;
}

abbrev unseen_type : Element
unseen_type = record {
  kind = text "message_type";
  id = 14;
  name = [];
  state = text "never_observed";
  first_seen_session = [];
  first_seen_utc = [];
  observations = 0;
}

abbrev small_store : Store
small_store = record {
  elements = (b'a' ∷ [], seen_type) ∷ (b'b' ∷ [], unseen_type) ∷ [];
  novel = [];
  updated = [];
}

seen_IsConsistent : IsConsistent seen_type
unfolding same text counts_for_journey no_text
seen_IsConsistent = record { shown = refl; seen = refl }

unseen_IsConsistent : IsConsistent unseen_type
unfolding same text counts_for_journey no_text
unseen_IsConsistent = record { shown = refl; seen = refl }

journey_ends_at_never_example :
    last_value (pos 0) (journey small_store) ≡ (totals small_store).never
journey_ends_at_never_example =
    journey_ends_at_never small_store (pos 0) (seen_IsConsistent, (unseen_IsConsistent, tt))

-- A journal of one frame of 60 bytes.
abbrev no_stamp : ℕ → Bytes
no_stamp at = []

abbrev file : Bytes
file = segment_name no_stamp 1 0

abbrev new_journal : Writer
new_journal = record {
  seg = some (record { path = file; frames = 0; bytes = 0; unflushed = 0 });
  seg_num = 1;
  seg_open = 0;
  first = none;
  last = none;
  segments = [];
  total_frames = 0;
  total_bytes = 0;
  last_flush = 0;
}

journal_opens : new_writer no_stamp fine 0 ≡ some new_journal
unfolding new_writer opened rotate after_finish finish_segment open_next
journal_opens = refl

abbrev one_frame : List Event
one_frame = frame 5 60 0 1 ∷ []

abbrev one_segment : SegmentInfo
one_segment = record { file = file; first_frame_at = some 5; last_frame_at = some 5; frames = 1 }

one_written : segments (after no_stamp new_journal one_frame) ≡ one_segment ∷ []
unfolding segments with_open info write write_to write_in flush_due first_or
one_written = refl

abbrev on_disk : Bytes → Content
on_disk name = packets ((b'x' ∷ [], 5) ∷ []) at_eof

abbrev directory : List DirEntry
directory = record { name = file; is_dir = false } ∷ []

one_listed : list_segments (some directory) ≡ some (file ∷ [])
unfolding list_segments segment_names sort_strings insert_string has_suffix same segment_name text
    decimal digits_loop
one_listed = refl

abbrev no_packet : Bytes → Option Packet
no_packet bytes = none

one_held : Holds no_tables no_packet none on_disk one_segment
unfolding ending_error
one_held = record { frames = refl; few = omega arith; whole = refl }

replay_cites_live_example :
    (fs : List (Arriving × Bytes)) × (replay no_tables no_packet none on_disk new_table
        (some directory)
      ≡ replayed (feed_all no_tables no_packet (new_pipeline new_table) fs))
    × (returned no_stamp new_journal one_frame ≡ some (map citation fs))
replay_cites_live_example =
    replay_cites_live no_tables no_packet none on_disk no_stamp 0 one_frame new_table
      (some directory) new_journal one_segment [] journal_opens (omega arith) one_written one_listed
      (one_held, tt)
