-- ===== src/Dashboard.antt =====
-- sc-capture/cmd/sccov/main.go: what `build` computes of a coverage store, without the percentage,
-- which is a floating point number, and the HTTP server. A map of Go is an association list, whose
-- order stands for the one that `range` takes; `sort.Slice` is an insertion sort, one of the orders
-- that it may give.
pub mod Names
pub mod Counted
pub mod Ends
use star_konflict.Base.{
  ℕ, zero, suc, ◌+◌, ◌-◌, Bool, true, false, not, ◌&&◌, ◌||◌, List, [], ◌∷◌, ◌++◌, Bytes, text,
  same, before, Option, none, some, if◌then◌else◌, ltb, length, map,
}
use star_konflict.Base.Decimal.{decimal}
use star_konflict.Base.Int.{ℤ, pos, negsuc, ◌-ℤ◌, ltb_ℤ}
use star_konflict.Base.Map.{lookup, insert, bytes_eq}

pub record Element : Type 0 where
  pub kind : Bytes
  pub id : ℕ
  pub name : Bytes
  pub state : Bytes
  pub first_seen_session : Bytes
  pub first_seen_utc : Bytes
  pub observations : ℕ

pub record Store : Type 0 where
  pub elements : List (Bytes × Element)
  pub novel : List Element
  pub updated : Bytes

pub record Counts : Type 0 where
  pub known : ℕ
  pub decoded : ℕ
  pub undecoded : ℕ

pub record KindRow : Type 0 where
  pub label : Bytes
  pub code : Bytes
  pub counts : Counts

pub record Totals : Type 0 where
  pub known : ℕ
  pub decoded : ℕ
  pub undecoded : ℕ
  pub never : ℤ
  pub observed : ℕ

abbrev pub no_counts : Counts
no_counts = record { known = 0; decoded = 0; undecoded = 0 }

unfoldable pub or_none : Option Counts → Counts
or_none none = no_counts
or_none (some c) = c

-- The switch on the state, after `k.known++`.
unfoldable pub count_state : Bytes → Counts → Counts
count_state state c =
    if same state (text "decoded")
    then record c { known = c.known + 1; decoded = c.decoded + 1 }
    else if same state (text "observed_undecoded")
    then record c { known = c.known + 1; undecoded = c.undecoded + 1 }
    else record c { known = c.known + 1 }

unfoldable pub count_kinds : List (Bytes × Element) → List (Bytes × Counts) → List (Bytes × Counts)
count_kinds [] counts = counts
count_kinds ((_, e) ∷ es) counts =
    count_kinds es (insert e.kind (count_state e.state (or_none (lookup e.kind counts))) counts)

-- `kindMeta`.
pub record KindMeta : Type 0 where
  pub key : Bytes
  pub label : Bytes
  pub prefix : Bytes

unfoldable pub kind_meta : List KindMeta
kind_meta =
    record { key = text "message_type"; label = text "Message types"; prefix = text "cmd_type" }
    ∷ record { key = text "async_request"; label = text "Async requests"; prefix = text "AC_*" }
    ∷ record { key = text "notification"; label = text "Notifications"; prefix = text "SN_*" }
    ∷ []

unfoldable pub kind_row : List (Bytes × Counts) → KindMeta → KindRow
kind_row counts m =
    let k = or_none (lookup m.key counts) in
    record {
      label = m.label;
      code = m.prefix ++ (32 ∷ 194 ∷ 183 ∷ 32 ∷ decimal k.known);
      counts = k;
    }

unfoldable pub add_row : Counts → KindRow → Counts
add_row t r = record {
  known = t.known + r.counts.known;
  decoded = t.decoded + r.counts.decoded;
  undecoded = t.undecoded + r.counts.undecoded;
}

unfoldable pub add_rows : Counts → List KindRow → Counts
add_rows t [] = t
add_rows t (r ∷ rs) = add_rows (add_row t r) rs

unfoldable pub kind_rows : Store → List KindRow
kind_rows st = map (kind_row (count_kinds st.elements [])) kind_meta

unfoldable pub totals : Store → Totals
totals st =
    let t = add_rows no_counts (kind_rows st) in
    record {
      known = t.known;
      decoded = t.decoded;
      undecoded = t.undecoded;
      never = (pos t.known -ℤ pos t.decoded) -ℤ pos t.undecoded;
      observed = t.decoded + t.undecoded;
    }

-- A session of the journey.
pub record Sess : Type 0 where
  pub name : Bytes
  pub utc : Bytes
  pub count : ℕ

unfoldable pub sess_of : Element → Option Sess → Sess
sess_of e none = record { name = e.first_seen_session; utc = e.first_seen_utc; count = 0 }
sess_of e (some s) = s

unfoldable pub no_text : Bytes → Bool
no_text [] = true
no_text (_ ∷ _) = false

-- From `s.count++` on.
unfoldable pub joined_by : Element → Sess → Sess
joined_by e s =
    let earlier =
      not (no_text e.first_seen_utc) && (no_text s.utc || before e.first_seen_utc s.utc) in
    record s { count = s.count + 1; utc = if earlier then e.first_seen_utc else s.utc }

unfoldable pub counts_for_journey : Element → Bool
counts_for_journey e = not (same e.state (text "never_observed") || no_text e.first_seen_session)

unfoldable pub group : List (Bytes × Element) → List (Bytes × Sess) → List (Bytes × Sess)
group [] sm = sm
group ((_, e) ∷ es) sm = group es (
    if counts_for_journey e
    then insert e.first_seen_session (joined_by e (sess_of e (lookup e.first_seen_session sm))) sm
    else sm)

unfoldable pub insert_sess : Sess → List Sess → List Sess
insert_sess a [] = a ∷ []
insert_sess a (b ∷ bs) = if before b.utc a.utc then b ∷ insert_sess a bs else a ∷ b ∷ bs

unfoldable pub sort_sess : List Sess → List Sess
sort_sess [] = []
sort_sess (a ∷ as') = insert_sess a (sort_sess as')

unfoldable pub sessions : Store → List Sess
sessions st = sort_sess (map (λ p. p.1) (group st.elements []))

-- `strings.Split(s, "__")`; the first argument holds the part that is being read.
unfoldable pub split_from : Bytes → Bytes → List Bytes
split_from part [] = part ∷ []
split_from part (c ∷ []) = (part ++ c ∷ []) ∷ []
split_from part (c ∷ d ∷ s) = elim (same (c ∷ d ∷ []) (b'_' ∷ b'_' ∷ [])) [
  | true ↦ part ∷ split_from [] s
  | false ↦ split_from (part ++ c ∷ []) (d ∷ s)
]

unfoldable pub part_at : List Bytes → ℕ → Bytes
part_at [] n = []
part_at (p ∷ ps) zero = p
part_at (p ∷ ps) (suc n) = part_at ps n

-- The scenario and the region.
unfoldable pub scenario_of : Bytes → Bytes × Bytes
scenario_of bundle = let parts = split_from [] bundle in (part_at parts 1, part_at parts 3)

unfoldable pub or_unknown : Bytes → Bytes
or_unknown [] = b'?' ∷ []
or_unknown (c ∷ cs) = c ∷ cs

abbrev pub Point : Type 0
Point = Bytes × ℤ

unfoldable pub steps : ℤ → List Sess → List Point
steps never [] = []
steps never (s ∷ ss) =
    let left = never -ℤ pos s.count in (or_unknown (scenario_of s.name).0, left) ∷ steps left ss

-- Consecutive steps of one label become one, with the later value.
unfoldable pub merge : Point → List Point → List Point
merge last [] = last ∷ []
merge (l, v) ((m, w) ∷ ps) =
    let more = merge (m, w) ps in elim (same l m) [ true ↦ merge (l, w) ps | false ↦ (l, v) ∷ more ]

unfoldable pub journey : Store → List Point
journey st =
    let known = pos (totals st).known in merge (text "Start", known) (steps known (sessions st))
