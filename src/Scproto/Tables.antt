-- ===== src/Scproto/Tables.antt =====
-- sc-capture/pkg/scproto/tables.go. The embedded JSON files enter as the lists of entries that
-- reading and parsing them gives, `none` for a failure; the loaded tables are a value, since
-- `sync.Once` runs the loader at most once.
pub mod Laws
use star_konflict.Base.{
  ℕ, ◌+◌, Bool, true, false, ◌&&◌, ◌||◌, not, List, [], ◌∷◌, ◌++◌, Bytes, text, same, before, ltb,
  ◌==◌, if◌then◌else◌, Option, none, some, length, map,
}
use star_konflict.Base.Decimal.{decimal}
use star_konflict.Base.Map.{lookup, insert, nat_eq, bytes_eq}

abbrev pub Kind : Type 0
Kind = Bytes

abbrev pub kind_message_type : Kind
kind_message_type = text "message_type"

abbrev pub kind_async_request : Kind
kind_async_request = text "async_request"

abbrev pub kind_notification : Kind
kind_notification = text "notification"

pub record Element : Type 0 where
  pub kind : Kind
  pub id : ℕ
  pub name : Bytes

-- `string(e.Kind) + ":" + itoa(int(e.ID))`.
unfoldable pub key : Kind → ℕ → Bytes
key kind id = kind ++ (b':' ∷ decimal id)

pub record TableEntry : Type 0 where
  pub id : ℕ
  pub name : Bytes

pub record Tables : Type 0 where
  pub by_kind : List (Kind × List (ℕ × Bytes))
  pub all_sorted : List Element
  pub failed : Bool

unfoldable pub no_tables : Tables
no_tables = record { by_kind = []; all_sorted = []; failed = false }

-- `m[e.ID] = e.Name` for every entry: of two entries with one id the later one stands.
unfoldable pub names_of : List TableEntry → List (ℕ × Bytes) → List (ℕ × Bytes)
names_of [] m = m
names_of (e ∷ es) m = names_of es (insert e.id e.name m)

unfoldable pub elements_of : Kind → List TableEntry → List Element
elements_of kind [] = []
elements_of kind (e ∷ es) = record { kind = kind; id = e.id; name = e.name } ∷ elements_of kind es

-- The loop over the three files stops at the first that cannot be read or parsed.
unfoldable pub load_kinds : (Kind → Option (List TableEntry)) → List Kind → Tables → Tables
load_kinds read [] t = t
load_kinds read (kind ∷ kinds) t = elim (read kind) [
  | none ↦ record t { failed = true }
  | some entries ↦ load_kinds read kinds (record t {
    by_kind = insert kind (names_of entries []) t.by_kind;
    all_sorted = t.all_sorted ++ elements_of kind entries;
  })
]

-- The order of `sort.Slice`.
unfoldable pub less : Element → Element → Bool
less a b = if not (same a.kind b.kind) then before a.kind b.kind else ltb a.id b.id

unfoldable pub insert_sorted : Element → List Element → List Element
insert_sorted a [] = a ∷ []
insert_sorted a (b ∷ bs) = if less b a then b ∷ insert_sorted a bs else a ∷ b ∷ bs

unfoldable pub sort_elements : List Element → List Element
sort_elements [] = []
sort_elements (a ∷ as') = insert_sorted a (sort_elements as')

abbrev pub all_kinds : List Kind
all_kinds = kind_message_type ∷ kind_async_request ∷ kind_notification ∷ []

-- A failed load returns before the sort.
unfoldable pub load_tables : (Kind → Option (List TableEntry)) → Tables
load_tables read =
    let t = load_kinds read all_kinds no_tables in
    if t.failed then t else record t { all_sorted = sort_elements t.all_sorted }

-- `none` is Go's `"", false`.
unfoldable pub name : Tables → Kind → ℕ → Option Bytes
name t kind id =
    if t.failed then none else elim (lookup kind t.by_kind) [ none ↦ none | some m ↦ lookup id m ]

unfoldable pub universe : Tables → Option (List Element)
universe t = if t.failed then none else some t.all_sorted

unfoldable pub kind_counts : List (Kind × List (ℕ × Bytes)) → List (Kind × ℕ)
kind_counts [] = []
kind_counts ((k, m) ∷ rest) = (k, length m) ∷ kind_counts rest

unfoldable pub counts : Tables → Option (List (Kind × ℕ))
counts t = if t.failed then none else some (kind_counts t.by_kind)
