-- ===== src/Annotate/Derived/Once.antt =====
-- What `Observe` of sc-capture/internal/annotate/derived.go stamps over a whole session.
use star_konflict.Base.{
  ℕ, suc, ◌+◌, ◌≡◌, refl, sym, ap, ◌∙◌, Bool, true, false, not, ◌&&◌, List, [], ◌∷◌, ◌++◌, Bytes,
  length, drop, drop-length, if◌then◌else◌, ltb, map, arith, append_assoc, append-nil,
}
use mathlib.Core.List.{map-append}
use star_konflict.Base.Int.{ℤ}
use star_konflict.Scproto.Tables.{Element}
use star_konflict.Decode.Record.{Handoff}
use star_konflict.Decode.Pipeline.{Stats}
use star_konflict.Annotate.{Beacon, Marker, stamp, next_seq}
use star_konflict.Annotate.Derived.{
  handoff_label, novel_label, desync_label, credential_label, Deriver, new_deriver, noted,
  stamp_label, stamp_labels, observe,
}

-- What a derived marker is about.
pub data Event : Type 0 where
  handed : Handoff → Event
  fresh : Element → Event
  desynced : ℕ → Event
  credentials : Event

abbrev pub event_label : Event → Bytes
event_label (handed h) = handoff_label h
event_label (fresh e) = novel_label e
event_label (desynced n) = desync_label n
event_label credentials = credential_label

abbrev pub handoffs_of : List Event → List Handoff
handoffs_of [] = []
handoffs_of (handed h ∷ es) = h ∷ handoffs_of es
handoffs_of (fresh e ∷ es) = handoffs_of es
handoffs_of (desynced n ∷ es) = handoffs_of es
handoffs_of (credentials ∷ es) = handoffs_of es

abbrev pub novel_of : List Event → List Element
novel_of [] = []
novel_of (handed h ∷ es) = novel_of es
novel_of (fresh e ∷ es) = e ∷ novel_of es
novel_of (desynced n ∷ es) = novel_of es
novel_of (credentials ∷ es) = novel_of es

abbrev pub warnings_of : List Event → ℕ
warnings_of [] = 0
warnings_of (handed h ∷ es) = warnings_of es
warnings_of (fresh e ∷ es) = warnings_of es
warnings_of (desynced n ∷ es) = warnings_of es
warnings_of (credentials ∷ es) = suc (warnings_of es)

abbrev pub labels : List Marker → List Bytes
labels = map (λ m. m.label)

-- A later snapshot of the statistics of a pipeline: the lists have grown at their end.
pub record Extends (s t : Stats) : Type 0 where
  pub handoffs : (hs : List Handoff) × (t.handoffs ≡ s.handoffs ++ hs)
  pub novel : (es : List Element) × (t.novel ≡ s.novel ++ es)
  pub credentials : s.credentials_seen ≡ true → t.credentials_seen ≡ true

-- A call of the timer: the snapshot that it takes, and the clocks.
pub record Look : Type 0 where
  pub stats : Stats
  pub wall : ℕ
  pub mono : ℤ

abbrev pub Growing : Stats → List Look → Type 0
Growing s [] = Unit {0}
Growing s (t ∷ ts) = Extends s t.stats × Growing t.stats ts

abbrev pub latest : Stats → List Look → Stats
latest s [] = s
latest s (t ∷ ts) = latest t.stats ts

-- Before the first frame.
abbrev pub no_stats : Stats
no_stats = record {
  records = 0;
  desyncs = 0;
  failures = 0;
  novel = [];
  credentials_seen = false;
  handoffs = [];
  observed_elements = [];
  distinct_observed = 0;
  distinct_decoded_ok = 0;
}

abbrev pub one_if : Bool → ℕ
one_if b = if b then 1 else 0

-- What a call of `Observe` is about.
abbrev events : Deriver → Stats → List Event
events d st =
    map handed (drop d.seen_handoffs st.handoffs)
    ++ (map fresh (drop d.seen_novel st.novel)
        ++ ((if ltb d.seen_desyncs st.desyncs then desynced st.desyncs ∷ [] else [])
            ++ (if st.credentials_seen && not d.credentialled then credentials ∷ [] else [])))

handoffs_of-append :
    (xs ys : List Event) → handoffs_of (xs ++ ys) ≡ handoffs_of xs ++ handoffs_of ys
handoffs_of-append [] ys = refl
handoffs_of-append (handed h ∷ xs) ys = ap (λ t. h ∷ t) (handoffs_of-append xs ys)
handoffs_of-append (fresh e ∷ xs) ys = handoffs_of-append xs ys
handoffs_of-append (desynced n ∷ xs) ys = handoffs_of-append xs ys
handoffs_of-append (credentials ∷ xs) ys = handoffs_of-append xs ys

novel_of-append : (xs ys : List Event) → novel_of (xs ++ ys) ≡ novel_of xs ++ novel_of ys
novel_of-append [] ys = refl
novel_of-append (handed h ∷ xs) ys = novel_of-append xs ys
novel_of-append (fresh e ∷ xs) ys = ap (λ t. e ∷ t) (novel_of-append xs ys)
novel_of-append (desynced n ∷ xs) ys = novel_of-append xs ys
novel_of-append (credentials ∷ xs) ys = novel_of-append xs ys

warnings_of-append : (xs ys : List Event) → warnings_of (xs ++ ys) ≡ warnings_of xs + warnings_of ys
warnings_of-append [] ys = omega arith
warnings_of-append (handed h ∷ xs) ys = warnings_of-append xs ys
warnings_of-append (fresh e ∷ xs) ys = warnings_of-append xs ys
warnings_of-append (desynced n ∷ xs) ys = warnings_of-append xs ys
warnings_of-append (credentials ∷ xs) ys = omega (arith, warnings_of-append xs ys)

-- The three readings of what one call is about.
module _ (n : ℕ) (worse first : Bool) where
  abbrev rest : List Event
  rest = (if worse then desynced n ∷ [] else []) ++ (if first then credentials ∷ [] else [])

  handoffs_of-parts :
      (hs : List Handoff) (es : List Element)
      → handoffs_of (map handed hs ++ (map fresh es ++ rest)) ≡ hs
  handoffs_of-parts [] [] = ground arith
  handoffs_of-parts [] (e ∷ es) = handoffs_of-parts [] es
  handoffs_of-parts (h ∷ hs) es = ap (λ t. h ∷ t) (handoffs_of-parts hs es)

  novel_of-parts :
      (hs : List Handoff) (es : List Element)
      → novel_of (map handed hs ++ (map fresh es ++ rest)) ≡ es
  novel_of-parts [] [] = ground arith
  novel_of-parts [] (e ∷ es) = ap (λ t. e ∷ t) (novel_of-parts [] es)
  novel_of-parts (h ∷ hs) es = novel_of-parts hs es

  warnings_of-parts :
      (hs : List Handoff) (es : List Element)
      → warnings_of (map handed hs ++ (map fresh es ++ rest)) ≡ one_if first
  warnings_of-parts [] [] = ground arith
  warnings_of-parts [] (e ∷ es) = warnings_of-parts [] es
  warnings_of-parts (h ∷ hs) es = warnings_of-parts hs es

-- The counters of a deriver are those of the snapshot that it has seen last.
record Seen (d : Deriver) (s : Stats) : Type 0 where
  handoffs : d.seen_handoffs ≡ length s.handoffs
  novel : d.seen_novel ≡ length s.novel
  credentials : d.credentialled ≡ s.credentials_seen

-- Markers for all that is new between two snapshots.
record Annotates (s t : Stats) (ms : List Marker) : Type 0 where
  events : List Event
  labels : labels ms ≡ map event_label events
  handoffs : t.handoffs ≡ s.handoffs ++ handoffs_of events
  novel : t.novel ≡ s.novel ++ novel_of events
  warnings : one_if t.credentials_seen ≡ one_if s.credentials_seen + warnings_of events

Annotates-refl : (s : Stats) → Annotates s s []
Annotates-refl s = record {
  events = [];
  labels = refl;
  handoffs = sym (append-nil s.handoffs);
  novel = sym (append-nil s.novel);
  warnings = omega arith;
}

joined {ℓ} :
    {A : Type ℓ} (xs ys zs : List A) {us ts : List A}
    → ts ≡ xs ++ ys
    → us ≡ ts ++ zs
    → us ≡ xs ++ (ys ++ zs)
joined xs ys zs h k = k ∙ rw h (append_assoc xs ys zs)

Annotates-trans :
    {s t u : Stats} {ms ns : List Marker}
    → Annotates s t ms
    → Annotates t u ns
    → Annotates s u (ms ++ ns)
Annotates-trans {s} {t} {u} {ms} {ns} a b = record {
  events = a.events ++ b.events;
  labels =
      map-append _ ms ns ∙ rw (a.labels, b.labels) (sym (map-append event_label a.events b.events));
  handoffs =
      joined s.handoffs _ _ a.handoffs b.handoffs
      ∙ ap (λ x. s.handoffs ++ x) (sym (handoffs_of-append a.events b.events));
  novel =
      joined s.novel _ _ a.novel b.novel
      ∙ ap (λ x. s.novel ++ x) (sym (novel_of-append a.events b.events));
  warnings = b.warnings ∙ omega (arith, a.warnings, warnings_of-append a.events b.events);
}

warned : (s t d : Bool) → d ≡ s → (s ≡ true → t ≡ true) → one_if t ≡ one_if s + one_if (t && not d)
warned true true true e k = omega arith
warned true true false e k = cc
warned true false d e k = cc (k refl)
warned false t true e k = cc
warned false true false e k = omega arith
warned false false false e k = omega arith

known : (s t d : Bool) → d ≡ s → (s ≡ true → t ≡ true) → (if t && not d then true else d) ≡ t
known true true true e k = refl
known true true false e k = cc
known true false d e k = cc (k refl)
known false t true e k = cc
known false true false e k = refl
known false false false e k = refl

regrouped :
    (n : ℕ) (worse first : Bool) (hs : List Handoff) (es : List Element)
    → ((map handoff_label hs ++ map novel_label es)
          ++ map event_label (if worse then desynced n ∷ [] else []))
        ++ map event_label (if first then credentials ∷ [] else [])
      ≡ map event_label (map handed hs ++ (map fresh es ++ rest n worse first))
regrouped n worse first [] [] =
    sym (map-append event_label (if worse then desynced n ∷ [] else []) _)
regrouped n worse first [] (e ∷ es) = ap (λ t. novel_label e ∷ t) (regrouped n worse first [] es)
regrouped n worse first (h ∷ hs) es = ap (λ t. handoff_label h ∷ t) (regrouped n worse first hs es)

module _ (format_time : ℕ → Bytes) (io : ℤ → Bool × Bool)
    (good : (n : ℤ) → io n ≡ (true, true)) where
  stamp_label-labels :
      (wall : ℕ) (mono : ℤ) (b : Beacon) (ms : List Marker) (l : Bytes)
      → labels (stamp_label format_time io wall mono (b, ms) l).1 ≡ labels ms ++ l ∷ []
  unfolding stamp_label noted stamp
  stamp_label-labels wall mono b ms l = rw (good (next_seq b.seq)) (map-append _ ms _)

  stamp_labels-labels :
      (wall : ℕ) (mono : ℤ) (ls : List Bytes) (b : Beacon) (ms : List Marker)
      → labels (stamp_labels format_time io wall mono (b, ms) ls).1 ≡ labels ms ++ ls
  unfolding stamp_labels
  stamp_labels-labels wall mono [] b ms = sym (append-nil (labels ms))
  stamp_labels-labels wall mono (l ∷ ls) b ms =
      let r = stamp_label format_time io wall mono (b, ms) l in
      stamp_labels-labels wall mono ls r.0 r.1
      ∙ ap (λ t. t ++ ls) (stamp_label-labels wall mono b ms l)
      ∙ append_assoc (labels ms) (l ∷ []) ls

  stamp_if :
      (c : Bool) (wall : ℕ) (mono : ℤ) (r : Beacon × List Marker) (e : Event)
      → labels (if c then stamp_label format_time io wall mono r (event_label e) else r).1
        ≡ labels r.1 ++ map event_label (if c then e ∷ [] else [])
  stamp_if true wall mono r e = stamp_label-labels wall mono r.0 r.1 (event_label e)
  stamp_if false wall mono r e = sym (append-nil (labels r.1))

  observe-events :
      (d : Deriver) (st : Stats) (wall : ℕ) (mono : ℤ)
      → labels (observe format_time io wall mono d st).1 ≡ map event_label (events d st)
  unfolding observe
  observe-events d st wall mono =
      let hs = drop d.seen_handoffs st.handoffs in
      let es = drop d.seen_novel st.novel in
      let worse = ltb d.seen_desyncs st.desyncs in
      let first = st.credentials_seen && not d.credentialled in
      let r = stamp_labels format_time io wall mono (d.beacon, []) (map handoff_label hs) in
      let s = stamp_labels format_time io wall mono r (map novel_label es) in
      let t =
        if worse then stamp_label format_time io wall mono s (desync_label st.desyncs) else s in
      let tail =
        λ (x : List Bytes). x ++ map event_label (if first then credentials ∷ [] else []) in
      let middle =
        λ (x : List Bytes). x ++ map event_label (if worse then desynced st.desyncs ∷ [] else []) in
      stamp_if first wall mono t credentials
      ∙ ap tail (
          stamp_if worse wall mono s (desynced st.desyncs)
          ∙ ap middle (
              stamp_labels-labels wall mono (map novel_label es) r.0 r.1
              ∙ ap (λ x. x ++ map novel_label es)
                  (stamp_labels-labels wall mono (map handoff_label hs) d.beacon [])))
      ∙ regrouped st.desyncs worse first hs es

  -- Every `Observe` of a session, with all that they return.
  abbrev pub observe_all : Deriver → List Look → List Marker
  observe_all d [] = []
  observe_all d (c ∷ cs) =
      let r = observe format_time io c.wall c.mono d c.stats in r.1 ++ observe_all r.0 cs

  observe-Annotates :
      (d : Deriver) (s : Stats) (c : Look)
      → Seen d s
      → Extends s c.stats
      → Annotates s c.stats (observe format_time io c.wall c.mono d c.stats).1
  observe-Annotates d s c h e =
      let t = c.stats in
      let hs : drop d.seen_handoffs t.handoffs ≡ e.handoffs.0 =
        rw (h.handoffs, e.handoffs.1) (drop-length s.handoffs e.handoffs.0) in
      let es : drop d.seen_novel t.novel ≡ e.novel.0 =
        rw (h.novel, e.novel.1) (drop-length s.novel e.novel.0) in
      let worse = ltb d.seen_desyncs t.desyncs in
      let first = t.credentials_seen && not d.credentialled in
      record {
        events = events d t;
        labels = observe-events d t c.wall c.mono;
        handoffs =
            e.handoffs.1
            ∙ ap (λ x. s.handoffs ++ x) (sym (handoffs_of-parts t.desyncs worse first _ _ ∙ hs));
        novel =
            e.novel.1
            ∙ ap (λ x. s.novel ++ x)
                (sym
                  (novel_of-parts t.desyncs worse first (drop d.seen_handoffs t.handoffs) _ ∙ es));
        warnings =
            warned s.credentials_seen t.credentials_seen d.credentialled h.credentials e.credentials
            ∙ ap (λ n. one_if s.credentials_seen + n)
                (sym (
                  warnings_of-parts t.desyncs worse first (drop d.seen_handoffs t.handoffs)
                    (drop d.seen_novel t.novel)));
      }

  observe-Seen :
      (d : Deriver) (s : Stats) (c : Look)
      → Seen d s
      → Extends s c.stats
      → Seen (observe format_time io c.wall c.mono d c.stats).0 c.stats
  unfolding observe
  observe-Seen d s c h e = record {
    handoffs = refl;
    novel = refl;
    credentials =
        known s.credentials_seen c.stats.credentials_seen d.credentialled h.credentials
          e.credentials;
  }

  observe_all-Annotates :
      (cs : List Look) (d : Deriver) (s : Stats)
      → Seen d s
      → Growing s cs
      → Annotates s (latest s cs) (observe_all d cs)
  observe_all-Annotates [] d s h g = Annotates-refl s
  observe_all-Annotates (c ∷ cs) d s h g =
      Annotates-trans (observe-Annotates d s c h g.0)
        (observe_all-Annotates cs _ c.stats (observe-Seen d s c h g.0) g.1)

  -- Over a session in which the log takes every line: whenever the timer looks at the statistics,
  -- as long as they grow as those of a pipeline do, the markers that all calls of `Observe` return
  -- are labelled for one list of events, in order, in which each handoff of the last snapshot
  -- stands once and in order, so does each novel element, and the credential warning stands once
  -- if credentials were seen by then and not at all otherwise.
  pub observe_all-once :
      (b : Beacon) (cs : List Look)
      → Growing no_stats cs
      → (es : List Event) × (labels (observe_all (new_deriver b) cs) ≡ map event_label es)
        × (handoffs_of es ≡ (latest no_stats cs).handoffs)
        × (novel_of es ≡ (latest no_stats cs).novel)
        × (warnings_of es ≡ one_if (latest no_stats cs).credentials_seen)
  unfolding new_deriver
  observe_all-once b cs g =
      let start : Seen (new_deriver b) no_stats = record {
        handoffs = refl;
        novel = refl;
        credentials = refl;
      } in
      let a = observe_all-Annotates cs (new_deriver b) no_stats start g in
      (a.events, a.labels, sym a.handoffs, sym a.novel, omega (arith, a.warnings))
