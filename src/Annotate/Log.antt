-- ===== src/Annotate/Log.antt =====
-- `Stamp` and `OpenBeacon` of sc-capture/internal/annotate/marker.go on one log.
use mathlib.Core.Path.{subst}
use native.Mathlib.Nat.{add-zero}
use star_konflict.Base.{
  ℕ, ◌+◌, ◌<◌, ◌≡◌, refl, sym, ap, ◌∙◌, Bool, true, List, [], ◌∷◌, ◌++◌, Bytes, text, Option, none,
  some, length, if◌then◌else◌, ◌==◌, arith, append_assoc, Bool-cases, inl, inr, lt→ltb,
}
use star_konflict.Base.Decimal.{itoa, Without, decimal-Without, Without-append}
use star_konflict.Base.Int.{ℤ, pos, ltb_ℤ}
use star_konflict.Base.Strings.{scan, scanned, lines_from, drop_cr, max_token}
use star_konflict.Base.Strings.Laws.{
  Ended, lines_from-Ended, lines_from-line, scanned-append, trim_space-drop_cr,
}
use star_konflict.Annotate.{
  Marker, one_line, format, parse, later_seq, last_of, last_seq, Beacon, holds, beacon_at,
  open_beacon, next_seq, stamp, default_beacon_port,
}
use star_konflict.Annotate.RoundTrip.{padded-Without, tag-Without, parse-format}

-- A marker that somebody stamps: its kind, label, time and monotonic time.
pub record Call : Type 0 where
  pub kind : Bytes
  pub label : Bytes
  pub wall : ℕ
  pub mono : ℕ

one_line-Without : (l : Bytes) → Without b'\n' (one_line l)
unfolding one_line
one_line-Without [] = tt
one_line-Without (c ∷ l) = (ground arith, one_line-Without l)

last_of-append :
    (parse_time : Bytes → Option ℕ) (ls ms : List Bytes) (last : ℤ)
    → last_of parse_time last (ls ++ ms) ≡ last_of parse_time (last_of parse_time last ls) ms
unfolding last_of
last_of-append parse_time [] ms last = refl
last_of-append parse_time (l ∷ ls) ms last = last_of-append parse_time ls ms _

next_seq-pos : (n : ℕ) → n + 1 < 9223372036854775808 → next_seq (pos n) ≡ pos (n + 1)
unfolding next_seq
next_seq-pos n h = ground arith

module _ (format_time : ℕ → Bytes) (parse_time : Bytes → Option ℕ) where
  abbrev at : ℕ → Call → Marker
  at n c = record { seq = pos n; wall = c.wall; mono = pos c.mono; kind = c.kind; label = c.label }

  -- A call whose line, with the number `n`, holds what it should and is short enough to be scanned.
  pub record Fits (n : ℕ) (c : Call) : Type 0 where
    pub number : n < 9223372036854775808
    pub mono : c.mono < 9223372036854775808
    pub kind_bars : Without b'|' c.kind
    pub kind_lines : Without b'\n' c.kind
    pub short : length (format format_time (at n c)) < max_token

  abbrev pub AllFit : ℕ → List Call → Type 0
  AllFit n [] = Unit {0}
  AllFit n (c ∷ cs) = Fits (n + 1) c × AllFit (n + 1) cs

  -- `Stamp` for each call, every write and sync succeeding.
  abbrev pub stamp_all : Beacon → List Call → Beacon
  stamp_all b [] = b
  stamp_all b (c ∷ cs) =
      stamp_all (stamp format_time b c.kind c.label c.wall (pos c.mono) (true, true)).0 cs

  -- A beacon whose log ends in a whole line, and whose number is the last one of its log.
  record Resumes (conn : Bool) (port : ℕ) (b : Beacon) (n : ℕ) : Type 0 where
    ended : Ended b.f
    socket : b.conn ≡ conn
    sent_to : b.port ≡ port
    last : last_seq parse_time b.f ≡ some (pos n)
    seq : b.seq ≡ pos n

  abbrev port_or : ℕ → ℕ
  port_or port = if port == 0 then default_beacon_port else port

  opened-Resumes :
      (log : Bytes) (conn : Bool) (port : ℕ) (b : Beacon) (n : ℕ)
      → Ended log
      → open_beacon parse_time (holds log) true conn port ≡ some b
      → b.seq ≡ pos n
      → Resumes conn (port_or port) b n
  unfolding open_beacon beacon_at
  opened-Resumes log conn port b n e o s = by_last (last_seq parse_time log) refl o
    where
      by_last :
          (l : Option ℤ)
          → last_seq parse_time log ≡ l
          → beacon_at log true conn (port_or port) l ≡ some b
          → Resumes conn (port_or port) b n
      by_last none f o = cc
      by_last (some k) f o =
          let found : Beacon = record { f = log; conn = conn; seq = k; port = port_or port } in
          let here : found ≡ b = cc in
          let number : k ≡ pos n = ap (λ t. t.seq) here ∙ s in
          subst (λ t. Resumes conn (port_or port) t n) here
            (record {
              ended = e;
              socket = refl;
              sent_to = refl;
              last = f ∙ ap some number;
              seq = number;
            })

  reopened :
      (conn : Bool) (port : ℕ) (c : Beacon) (n : ℕ)
      → Resumes conn (port_or port) c n
      → open_beacon parse_time (holds c.f) true conn port ≡ some c
  unfolding open_beacon beacon_at
  reopened conn port c n r = rw r.last (ap some (cc))

  last_seq-some :
      (log : Bytes) {s : ℤ}
      → last_seq parse_time log ≡ some s
      → ((scan log).1 ≡ true) × (last_of parse_time (pos 0) (scan log).0 ≡ s)
  unfolding last_seq
  last_seq-some log h = elim (Bool-cases (scan log).1) [
    | inl y ↦ (y, cc (rw y at h))
    | inr n ↦ cc (rw n at h)
  ]

  last_seq-scan :
      (log : Bytes) {ls : List Bytes}
      → scan log ≡ (ls, true)
      → last_seq parse_time log ≡ some (last_of parse_time (pos 0) ls)
  unfolding last_seq
  last_seq-scan log h = rw h

  -- One more whole line.
  scan-line :
      (log l : Bytes)
      → Ended log
      → (scan log).1 ≡ true
      → Without b'\n' l
      → length l < max_token
      → scan (log ++ (l ++ b'\n' ∷ [])) ≡ ((scan log).0 ++ drop_cr l ∷ [], true)
  unfolding scan scanned
  scan-line log l e fine bare short =
      ap scanned
        (lines_from-Ended log _ e ∙ ap (λ t. lines_from [] log ++ t) (lines_from-line [] l bare))
      ∙ scanned-append (lines_from [] log) (l ∷ []) fine
      ∙ rw (lt→ltb (length l) max_token short)

  parse-drop_cr : (l : Bytes) → parse parse_time (drop_cr l) ≡ parse parse_time l
  unfolding parse
  parse-drop_cr l = rw (trim_space-drop_cr l)

  module _ (kept_time : ℕ → ℕ)
      (time_read : (w : ℕ) → parse_time (format_time w) ≡ some (kept_time w))
      (bar_free : (w : ℕ) → Without b'|' (format_time w))
      (line_free : (w : ℕ) → Without b'\n' (format_time w)) where
    line-Without : (n : ℕ) (c : Call) → Fits n c → Without b'\n' (format format_time (at n c))
    unfolding format itoa
    line-Without n c h =
        Without-append _ (text "SCMARK") _ (tag-Without b'\n' (inl (omega arith))) (
          omega arith,
          Without-append _ _ _ (padded-Without b'\n' n (λ d. omega (arith, d))) (
            omega arith,
            Without-append _ _ _ (line_free c.wall) (
              omega arith,
              Without-append _ _ _ (decimal-Without b'\n' c.mono (λ d. omega (arith, d))) (
                omega arith,
                Without-append _ _ _ h.kind_lines (omega arith, one_line-Without c.label),
              ),
            ),
          ),
        )

    last_seq-line :
        (log : Bytes) (n : ℕ) (c : Call)
        → Ended log
        → last_seq parse_time log ≡ some (pos n)
        → Fits (n + 1) c
        → last_seq parse_time (log ++ (format format_time (at (n + 1) c) ++ b'\n' ∷ []))
          ≡ some (pos (n + 1))
    unfolding last_of later_seq ltb_ℤ
    last_seq-line log n c e l h =
        let (fine, last) = last_seq-some log l in
        let line = format format_time (at (n + 1) c) in
        let read =
          parse-format format_time parse_time kept_time time_read bar_free (n + 1) c.mono c.wall
            c.kind c.label h.number h.mono h.kind_bars in
        last_seq-scan _ (scan-line log line e fine (line-Without (n + 1) c h) h.short)
        ∙ ap some (last_of-append parse_time (scan log).0 (drop_cr line ∷ []) (pos 0))
        ∙ rw (last, parse-drop_cr line, read, lt→ltb n (n + 1) (omega arith))

    stamped :
        (b : Beacon) (n : ℕ) (c : Call)
        → b.seq ≡ pos n
        → n + 1 < 9223372036854775808
        → (stamp format_time b c.kind c.label c.wall (pos c.mono) (true, true)).0 ≡ record b {
          f = b.f ++ (format format_time (at (n + 1) c) ++ b'\n' ∷ []);
          seq = pos (n + 1);
        }
    unfolding stamp
    stamped b n c e h = rw (e, next_seq-pos n h)

    stamp-Resumes :
        {conn : Bool} {port : ℕ} (b : Beacon) (n : ℕ) (c : Call)
        → Resumes conn port b n
        → Fits (n + 1) c
        → Resumes conn port
            (stamp format_time b c.kind c.label c.wall (pos c.mono) (true, true)).0
            (n + 1)
    stamp-Resumes {conn} {port} b n c r h =
        subst (λ t. Resumes conn port t (n + 1)) (sym (stamped b n c r.seq h.number))
          (record {
            ended = inr (b.f ++ format format_time (at (n + 1) c), sym (append_assoc b.f _ _));
            socket = r.socket;
            sent_to = r.sent_to;
            last = last_seq-line b.f n c r.ended r.last h;
            seq = refl;
          })

    stamp_all-Resumes :
        {conn : Bool} {port : ℕ} (cs : List Call) (b : Beacon) (n : ℕ)
        → Resumes conn port b n
        → AllFit n cs
        → Resumes conn port (stamp_all b cs) (n + length cs)
    stamp_all-Resumes {conn} {port} [] b n r h = rw (add-zero n) r
    stamp_all-Resumes {conn} {port} (c ∷ cs) b n r h =
        let next : n + 1 + length cs ≡ n + length (c ∷ cs) = omega arith in
        subst (Resumes conn port (stamp_all b (c ∷ cs))) next
          (stamp_all-Resumes cs _ (n + 1) (stamp-Resumes b n c r h.0) h.1)

    -- Of a log that is empty or ends in a newline, and whose last number is `n`: a beacon that was
    -- opened on it and stamps calls, each write succeeding, has the number `n` and the count of the
    -- calls in the end, and opening its log again gives that same beacon, so that the numbers go on
    -- where they were. Each line stamped is to hold no newline or bar out of place, to be shorter
    -- than 65536 bytes, and to have numbers below 2^63.
    pub open_beacon-stamp_all :
        (log : Bytes) (conn : Bool) (port n : ℕ) (b : Beacon) (cs : List Call)
        → Ended log
        → open_beacon parse_time (holds log) true conn port ≡ some b
        → b.seq ≡ pos n
        → AllFit n cs
        → (open_beacon parse_time (holds (stamp_all b cs).f) true conn port ≡ some (stamp_all b cs))
          × ((stamp_all b cs).seq ≡ pos (n + length cs))
    open_beacon-stamp_all log conn port n b cs e o s h =
        let r = stamp_all-Resumes cs b n (opened-Resumes log conn port b n e o s) h in
        (reopened conn port (stamp_all b cs) (n + length cs) r, r.seq)
