-- ===== src/Decode/Replay/Frames.antt =====
-- What sc-capture/internal/decode/replay.go feeds to the pipeline, and how it cites the frames
-- that sc-capture/internal/journal/segment.go has written.
use native.Mathlib.Nat.{mod-eq_of_lt}
use star_konflict.Base.{
  ℕ, suc, ◌+◌, ◌%◌, ◌<◌, ◌≡◌, refl, sym, ap, ◌∙◌, true, false, List, [], ◌∷◌, ◌++◌, Bytes, Option,
  none, some, length, map, u64_mod, arith, append-nil, append_assoc,
}
use mathlib.Core.List.{map-append}
use star_konflict.Flow.{Table}
use star_konflict.Scproto.Tables.{Tables}
use star_konflict.Decode.Pipeline.{Arriving, Packet, Pipeline, new_pipeline}
use star_konflict.Decode.Pipeline.Numbered.{feed_all}
use star_konflict.Decode.Replay.{
  Error, Content, cannot_open, bad_header, packets, DirEntry, list_segments, since, wrapped,
  ending_error, is_torn, Replayed, stopped, replayed, feed_packets, replay_segment, replay_from,
  replay_listed, replay,
}
use star_konflict.Journal.{SegmentInfo, Writer, new_writer, segments}
use star_konflict.Journal.Citations.{
  number, citations, fine, Event, frames_in, returned, after, returned-segments,
}

-- The packets of a segment, cited by their places.
abbrev pub cited : Option ℕ → Bytes → ℕ → List (Bytes × ℕ) → List (Arriving × Bytes)
cited start name i [] = []
cited start name i ((bytes, at) ∷ ps) =
    (record { ref = record { segment = name; index = i }; wall = at; mono = since start at }, bytes)
    ∷ cited start name (i + 1) ps

abbrev pub citation : Arriving × Bytes → Bytes × ℕ
citation (a, bytes) = (a.ref.segment, a.ref.index)

-- What can be read of a segment, and the error that stops a replay at it, if there is one.
abbrev pub readable : Content → List (Bytes × ℕ)
readable (cannot_open e) = []
readable (bad_header e) = []
readable (packets ps end) = ps

abbrev pub fatal_error : Option Error → Option Error
fatal_error none = none
fatal_error (some e) = elim (is_torn e) [ true ↦ none | false ↦ some e ]

abbrev pub fatal : Content → Option Error
fatal (cannot_open e) = fatal_error (some e)
fatal (bad_header e) = fatal_error (some (wrapped e))
fatal (packets ps end) = fatal_error (ending_error end)

abbrev unless {ℓ} : {A : Type ℓ} → Option Error → (Error → A) → A → A
unless none stop go = go
unless (some e) stop go = stop e

module _ (start : Option ℕ) (content : Bytes → Content) where
  -- The frames of the segments, up to and with the first that stops the replay.
  abbrev pub fed : List Bytes → List (Arriving × Bytes)
  fed [] = []
  fed (n ∷ ns) =
      let here = cited start n 0 (readable (content n)) in
      unless (fatal (content n)) (λ e. here) (here ++ fed ns)

  abbrev pub first_fatal : List Bytes → Option (Bytes × Error)
  first_fatal [] = none
  first_fatal (n ∷ ns) = unless (fatal (content n)) (λ e. some (n, e)) (first_fatal ns)

abbrev pub outcome : Option (Bytes × Error) → Pipeline → Replayed
outcome none p = replayed p
outcome (some (n, e)) p = stopped n e p

module _ (names : Tables) (packet : Bytes → Option Packet) where
  feed_all-append :
      (fs gs : List (Arriving × Bytes)) (p : Pipeline)
      → feed_all names packet p (fs ++ gs) ≡ feed_all names packet (feed_all names packet p fs) gs
  feed_all-append [] gs p = refl
  feed_all-append ((at, frame) ∷ fs) gs p = feed_all-append fs gs _

  module _ (start : Option ℕ) where
    feed_packets-feed_all :
        (name : Bytes) (ps : List (Bytes × ℕ)) (i : ℕ) (p : Pipeline)
        → i + length ps < u64_mod
        → feed_packets names packet start name i p ps
          ≡ feed_all names packet p (cited start name i ps)
    unfolding feed_packets
    feed_packets-feed_all name [] i p h = refl
    feed_packets-feed_all name ((bytes, at) ∷ ps) i p h =
        let next : (i + 1) % u64_mod ≡ i + 1 = mod-eq_of_lt (omega arith) in
        rw next (feed_packets-feed_all name ps (i + 1) _ (omega arith))

    -- Replaying a segment.
    replay_segment-fed :
        (p : Pipeline) (name : Bytes) (c : Content)
        → length (readable c) < u64_mod
        → ((replay_segment names packet start p name c).0
            ≡ feed_all names packet p (cited start name 0 (readable c)))
          × (fatal_error (replay_segment names packet start p name c).1 ≡ fatal c)
    unfolding replay_segment
    replay_segment-fed p name (cannot_open e) h = (refl, refl)
    replay_segment-fed p name (bad_header e) h = (refl, refl)
    replay_segment-fed p name (packets ps end) h =
        (feed_packets-feed_all name ps 0 p (omega arith), refl)

    module _ (content : Bytes → Content) where
      abbrev pub Short : List Bytes → Type 0
      Short [] = Unit {0}
      Short (n ∷ ns) = (length (readable (content n)) < u64_mod) × Short ns

      replay_from-step :
          (p : Pipeline) (n : Bytes) (ns : List Bytes)
          → let (q, e) = replay_segment names packet start p n (content n) in
            replay_from names packet start content p (n ∷ ns)
            ≡ unless
                (fatal_error e)
                (λ f. stopped n f q)
                (replay_from names packet start content q ns)
      unfolding replay_from
      replay_from-step p n ns = by_error _ (replay_segment names packet start p n (content n)).1
        where
          by_error :
              (q : Pipeline) (e : Option Error)
              → elim e [
                | none ↦ replay_from names packet start content q ns
                | some f ↦ elim (is_torn f) [
                  | true ↦ replay_from names packet start content q ns
                  | false ↦ stopped n f q
                ]
              ]
                ≡ unless
                    (fatal_error e)
                    (λ f. stopped n f q)
                    (replay_from names packet start content q ns)
          by_error q none = refl
          by_error q (some f) = ground arith

      replay_from-fed :
          (ns : List Bytes) (p : Pipeline)
          → Short ns
          → replay_from names packet start content p ns
            ≡ outcome
                (first_fatal start content ns)
                (feed_all names packet p (fed start content ns))
      replay_from-fed [] p h = unfold replay_from in refl
      replay_from-fed (n ∷ ns) p h =
          let (fed_here, end) = replay_segment-fed p n (content n) h.0 in
          replay_from-step p n ns
          ∙ rw (end, fed_here) (by_fatal (fatal (content n)) (replay_from-fed ns _ h.1))
        where
          by_fatal :
              (e : Option Error)
              → replay_from names packet start content
                  (feed_all names packet p (cited start n 0 (readable (content n))))
                  ns
                ≡ outcome (first_fatal start content ns) (
                    feed_all names packet
                      (feed_all names packet p (cited start n 0 (readable (content n))))
                      (fed start content ns))
              → unless e
                  (λ f.
                    stopped n f (feed_all names packet p (cited start n 0 (readable (content n)))))
                  (replay_from names packet start content
                    (feed_all names packet p (cited start n 0 (readable (content n))))
                    ns)
                ≡ outcome (unless e (λ f. some (n, f)) (first_fatal start content ns)) (
                    feed_all names packet p (
                      unless e
                        (λ f. cited start n 0 (readable (content n)))
                        (cited start n 0 (readable (content n)) ++ fed start content ns)))
          by_fatal none ih =
              ih
              ∙ ap (outcome (first_fatal start content ns)) (
                  sym (
                    feed_all-append (cited start n 0 (readable (content n))) (fed start content ns)
                      p))
          by_fatal (some e) ih = refl

      -- A replay of the segments of a directory feeds a new pipeline the packets of each segment, in
      -- the order of the names, cited by the segment and by their places in it, and ends with that
      -- pipeline. The first segment with an error other than a torn tail is the last one that is
      -- read: the replay is stopped there, with what its packets made of the pipeline. Each segment
      -- is to hold fewer than 2^64 packets.
      pub replay-fed :
          (t : Table) (dir : Option (List DirEntry)) (n : Bytes) (ns : List Bytes)
          → list_segments dir ≡ some (n ∷ ns)
          → Short (n ∷ ns)
          → replay names packet start content t dir
            ≡ outcome
                (first_fatal start content (n ∷ ns))
                (feed_all names packet (new_pipeline t) (fed start content (n ∷ ns)))
      unfolding replay replay_listed
      replay-fed t dir n ns e h = rw e (replay_from-fed (n ∷ ns) (new_pipeline t) h)

      -- The segments on disk hold the frames that the writer counts, perhaps behind a torn tail.
      pub record Holds (s : SegmentInfo) : Type 0 where
        pub frames : length (readable (content s.file)) ≡ s.frames
        pub few : s.frames < u64_mod
        pub whole : fatal (content s.file) ≡ none

      abbrev pub AllHold : List SegmentInfo → Type 0
      AllHold [] = Unit {0}
      AllHold (s ∷ ss) = Holds s × AllHold ss

      AllHold-Short : (ss : List SegmentInfo) → AllHold ss → Short (map (λ s. s.file) ss)
      AllHold-Short [] h = tt
      AllHold-Short (s ∷ ss) h = (omega (arith, h.0.frames, h.0.few), AllHold-Short ss h.1)

      cited-number :
          (f : Bytes) (ps : List (Bytes × ℕ)) (i : ℕ)
          → number f i ++ map citation (cited start f i ps) ≡ number f (i + length ps)
      cited-number f [] i =
          let none_more : i ≡ i + 0 = omega arith in
          append-nil (number f i) ∙ ap (number f) none_more
      cited-number f ((bytes, at) ∷ ps) i =
          let next : i + 1 ≡ suc i = omega arith in
          let all : i + 1 + length ps ≡ i + suc (length ps) = omega arith in
          sym (append_assoc (number f i) ((f, i) ∷ []) (map citation (cited start f (i + 1) ps)))
          ∙ ap (λ k. number f k ++ map citation (cited start f (i + 1) ps)) (sym next)
          ∙ cited-number f ps (i + 1)
          ∙ ap (number f) all

      fed-citations :
          (ss : List SegmentInfo)
          → AllHold ss
          → (map citation (fed start content (map (λ s. s.file) ss)) ≡ citations ss)
            × (first_fatal start content (map (λ s. s.file) ss) ≡ none)
      fed-citations [] h = (refl, refl)
      fed-citations (s ∷ ss) h =
          let (cites, fine_rest) = fed-citations ss h.1 in
          let count : 0 + length (readable (content s.file)) ≡ s.frames =
            omega (arith, h.0.frames) in
          let here : map citation (cited start s.file 0 (readable (content s.file)))
              ≡ number s.file s.frames =
            cited-number s.file (readable (content s.file)) 0 ∙ ap (number s.file) count in
          rw h.0.whole (
            map-append citation (cited start s.file 0 (readable (content s.file))) _
                ∙ rw (here, cites),
            fine_rest,
          )

      -- After a capture in which no file operation failed, when the directory lists the segments of
      -- the writer in their order and each holds the frames that the writer counts for it, a replay
      -- runs to its end, and the frames that it feeds the pipeline carry, one for one and in order,
      -- the citations that `Write` returned during the capture.
      pub replay_cites_live :
          (stamp : ℕ → Bytes) (now : ℕ) (es : List Event) (t : Table) (dir : Option (List DirEntry))
          (w : Writer) (s : SegmentInfo) (ss : List SegmentInfo)
          → new_writer stamp fine now ≡ some w
          → frames_in es + 1 < u64_mod
          → segments (after stamp w es) ≡ s ∷ ss
          → list_segments dir ≡ some (map (λ i. i.file) (s ∷ ss))
          → AllHold (s ∷ ss)
          → (fs : List (Arriving × Bytes)) × (replay names packet start content t dir
              ≡ replayed (feed_all names packet (new_pipeline t) fs))
            × (returned stamp w es ≡ some (map citation fs))
      replay_cites_live stamp now es t dir w s ss made few ends listed h =
          let files = map (λ i. i.file) (s ∷ ss) in
          let (cites, whole) = fed-citations (s ∷ ss) h in
          (
            fed start content files,
            replay-fed t dir s.file (map (λ i. i.file) ss) listed (AllHold-Short (s ∷ ss) h)
                ∙ rw whole,
            returned-segments stamp now es made few ∙ ap some (ap citations ends ∙ sym cites),
          )
