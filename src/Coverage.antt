-- ===== src/Coverage.antt =====
-- sc-capture/internal/coverage/store.go. What the file on disk holds is a parameter of `load`;
-- `Save` and `WriteDelta` only write. A time is a number of nanoseconds, a kind ASCII text.
pub mod Observe
pub mod Views
use star_konflict.Base.{
  ℕ, suc, ◌+◌, ◌-◌, ◌%◌, Bool, true, false, not, ◌&&◌, List, [], ◌∷◌, ◌++◌, Bytes, text, same,
  before, Option, none, some, ltb, leb, ◌==◌, if◌then◌else◌, map, u64_mod,
}
use star_konflict.Base.Strings.{to_upper}
use star_konflict.Base.Decimal.{decimal}
use star_konflict.Base.Map.{lookup, insert, bytes_eq}
use star_konflict.Scproto.Tables.{
  Kind, Element, key, Tables, name, universe, kind_message_type, kind_async_request,
  kind_notification, less,
}

-- `other` is any other text, which a stored document may hold.
pub data State : Type 0 where
  never_observed observed_undecoded decoded : State
  other : Bytes → State

unfoldable pub rank : State → ℕ
rank decoded = 2
rank observed_undecoded = 1
rank _ = 0

pub record Entry : Type 0 where
  pub kind : Kind
  pub id : ℕ
  pub name : Bytes
  pub state : State
  pub first_seen_session : Bytes
  pub first_seen_utc : ℕ
  pub observations : ℕ

pub record Document : Type 0 where
  pub schema_version : Bytes
  pub elements : List (Bytes × Entry)
  pub novel : List Entry

abbrev pub schema : Bytes
schema = text "1.0"

-- `&Entry{Kind: …, ID: …, Name: …, State: NeverObserved}`.
unfoldable pub new_entry : Kind → ℕ → Bytes → Entry
new_entry kind id name = record {
  kind = kind;
  id = id;
  name = name;
  state = never_observed;
  first_seen_session = [];
  first_seen_utc = 0;
  observations = 0;
}

unfoldable pub add_missing : Element → Option Entry → List (Bytes × Entry) → List (Bytes × Entry)
add_missing e (some _) m = m
add_missing e none m = insert (key e.kind e.id) (new_entry e.kind e.id e.name) m

-- The loop of `Load` over the universe.
unfoldable pub fold_universe : List Element → List (Bytes × Entry) → List (Bytes × Entry)
fold_universe [] m = m
fold_universe (e ∷ es) m = fold_universe es (add_missing e (lookup (key e.kind e.id) m) m)

-- The loop of `bootstrap`: of two elements with one key the later one stands.
unfoldable pub enter_all : List Element → List (Bytes × Entry) → List (Bytes × Entry)
enter_all [] m = m
enter_all (e ∷ es) m = enter_all es (insert (key e.kind e.id) (new_entry e.kind e.id e.name) m)

unfoldable pub bootstrap : Option (List Element) → Option Document
bootstrap none = none
bootstrap (some es) =
    some (record { schema_version = schema; elements = enter_all es []; novel = [] })

-- What `os.ReadFile` and `json.Unmarshal` find.
pub data Stored : Type 0 where
  missing unreadable no_json : Stored
  stored : Document → Stored

unfoldable pub with_universe : Document → Option (List Element) → Option Document
with_universe d none = none
with_universe d (some es) = some (record d { elements = fold_universe es d.elements })

-- `Load`; `none` is any of its errors.
unfoldable pub load : Tables → Stored → Option Document
load names missing = bootstrap (universe names)
load names unreadable = none
load names no_json = none
load names (stored d) = with_universe d (universe names)

unfoldable pub name_or : Kind → ℕ → Option Bytes → Bytes
name_or kind id (some n) = n
name_or kind id none = to_upper kind ++ (text "_UNKNOWN_" ++ decimal id)

unfoldable pub entry_or_new : Tables → Kind → ℕ → Option Entry → Entry
entry_or_new names kind id (some e) = e
entry_or_new names kind id none = new_entry kind id (name_or kind id (name names kind id))

unfoldable pub raised : State → Bool → State
raised s done =
    let next = if done then decoded else observed_undecoded in
    if ltb (rank s) (rank next) then next else s

unfoldable pub is_unseen : Bytes → Bool
is_unseen [] = true
is_unseen (_ ∷ _) = false

-- From `e.Observations++` on.
unfoldable pub sighted : Entry → Bool → Bytes → ℕ → Entry
sighted e done session at =
    let unseen = is_unseen e.first_seen_session in
    record e {
      observations = (e.observations + 1) % u64_mod;
      first_seen_session = if unseen then session else e.first_seen_session;
      first_seen_utc = if unseen then at else e.first_seen_utc;
      state = raised e.state done;
    }

unfoldable pub observe : Tables → Document → Kind → ℕ → Bool → Bytes → ℕ → Document
observe names d kind id done session at =
    let k = key kind id in
    let e = entry_or_new names kind id (lookup k d.elements) in
    record d { elements = insert k (sighted e done session at) d.elements }

unfoldable pub count_novel : Kind → ℕ → Bytes → Bytes → ℕ → List Entry → List Entry
count_novel kind id name session at [] =
    record {
      kind = kind;
      id = id;
      name = name;
      state = observed_undecoded;
      first_seen_session = session;
      first_seen_utc = at;
      observations = 1;
    }
    ∷ []
count_novel kind id name session at (e ∷ es) =
    if same e.kind kind && e.id == id
    then record e { observations = (e.observations + 1) % u64_mod } ∷ es
    else e ∷ count_novel kind id name session at es

unfoldable pub novelty : Document → Kind → ℕ → Bytes → Bytes → ℕ → Document
novelty d kind id name session at = record d { novel = count_novel kind id name session at d.novel }

pub record Summary : Type 0 where
  pub kind : Kind
  pub known : ℕ
  pub decoded : ℕ
  pub undecoded : ℕ
  pub never_observed : ℕ

abbrev pub empty_summary : Kind → Summary
empty_summary k = record { kind = k; known = 0; decoded = 0; undecoded = 0; never_observed = 0 }

-- The switch on the state, after `s.Known++`.
unfoldable pub tally : Summary → State → Summary
tally s decoded = record s { known = s.known + 1; decoded = s.decoded + 1 }
tally s observed_undecoded = record s { known = s.known + 1; undecoded = s.undecoded + 1 }
tally s _ = record s { known = s.known + 1; never_observed = s.never_observed + 1 }

-- `idx[e.Kind]` points into `out`; the kinds there differ.
unfoldable pub tally_kind : Entry → List Summary → List Summary
tally_kind e [] = []
tally_kind e (s ∷ ss) = if same s.kind e.kind then tally s e.state ∷ ss else s ∷ tally_kind e ss

unfoldable pub tally_all : List (Bytes × Entry) → List Summary → List Summary
tally_all [] ss = ss
tally_all ((_, e) ∷ m) ss = tally_all m (tally_kind e ss)

unfoldable pub summarise : Document → List Summary
summarise d = tally_all d.elements (
    empty_summary kind_message_type
    ∷ empty_summary kind_async_request
    ∷ empty_summary kind_notification
    ∷ [])

unfoldable pub state_text : State → Bytes
state_text never_observed = text "never_observed"
state_text observed_undecoded = text "observed_undecoded"
state_text decoded = text "decoded"
state_text (other s) = s

-- `want != "" && got != want` skips an entry.
unfoldable pub matches : Bytes → Bytes → Bool
matches [] got = true
matches (c ∷ cs) got = same got (c ∷ cs)

unfoldable pub select : Bytes → Bytes → List (Bytes × Entry) → List Entry
select kind state [] = []
select kind state ((_, e) ∷ m) =
    if matches kind e.kind && matches state (state_text e.state)
    then e ∷ select kind state m
    else select kind state m

unfoldable pub entry_less : Entry → Entry → Bool
entry_less a b = if same a.kind b.kind then ltb a.id b.id else before a.kind b.kind

unfoldable pub insert_entry : Entry → List Entry → List Entry
insert_entry a [] = a ∷ []
insert_entry a (b ∷ bs) = if entry_less b a then b ∷ insert_entry a bs else a ∷ b ∷ bs

unfoldable pub sort_entries : List Entry → List Entry
sort_entries [] = []
sort_entries (a ∷ as') = insert_entry a (sort_entries as')

unfoldable pub filter : Document → Bytes → Bytes → List Entry
filter d kind state = sort_entries (select kind state d.elements)

abbrev pub novel_entries : Document → List Entry
novel_entries d = d.novel

pub record Delta : Type 0 where
  pub schema_version : Bytes
  pub bundle_id : Bytes
  pub observed : List Entry
  pub novel : List Entry
