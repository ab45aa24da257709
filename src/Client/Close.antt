-- ===== src/Client/Close.antt =====
-- How a line of an app manifest is read by sc-capture/internal/client/steam.go, for two manifests that
-- differ in the owner of the account only.
use mathlib.Core.Path.{subst₂}
use star_konflict.Base.{
  ℕ, ◌≡◌, ◌≢◌, refl, sym, ap, ◌∙◌, Bool, true, false, ◌&&◌, List, [], ◌∷◌, Bytes, text, same,
  same_iff, Option, none, some, if◌then◌else◌, arith, Bool-cases, inl, inr,
}
use star_konflict.Base.Map.{lookup, insert, bytes_eq, lookup-insert, lookup-insert_ne}
use star_konflict.Base.Strings.{trim_space, lower, equal_fold, trim_left, trim_right, keep_before}
use star_konflict.Client.{
  quoted, with_key, kv_line, bare_token, Acf, in_depot, at_top, enter_key, leave, popped,
  open_section, key_or_section, read_line, read_lines, no_keys,
}

abbrev pub owner_key : Bytes
owner_key = text "lastowner"

-- Two trimmed lines that are the same, or that both give a value to `LastOwner`, in any case.
pub data Alike : Bytes → Bytes → Type 0 where
  alike : (t : Bytes) → Alike t t
  owners :
      (t u k l v w : Bytes)
      → kv_line t ≡ some (k, v)
      → kv_line u ≡ some (l, w)
      → lower k ≡ text "lastowner"
      → lower l ≡ text "lastowner"
      → Alike t u

abbrev pub AllAlike : List Bytes → List Bytes → Type 0
AllAlike [] [] = Unit {0}
AllAlike [] (m ∷ ms) = ⊥
AllAlike (l ∷ ls) [] = ⊥
AllAlike (l ∷ ls) (m ∷ ms) = Alike (trim_space l) (trim_space m) × AllAlike ls ms

pub record Close (a b : Acf) : Type 0 where
  pub keys : (k : Bytes) → k ≢ owner_key → lookup k a.kv ≡ lookup k b.kv
  pub none_yet : no_keys a.kv ≡ no_keys b.kv
  pub depots : a.depots ≡ b.depots
  pub section : a.section ≡ b.section
  pub depot : a.current_depot ≡ b.current_depot

no_keys-insert : (k v : Bytes) (m : List (Bytes × Bytes)) → no_keys (insert k v m) ≡ false
unfolding no_keys insert
no_keys-insert k v [] = refl
no_keys-insert k v ((j, w) ∷ m) = elim (Bool-cases (same j k)) [ inl y ↦ rw y | inr n ↦ rw n ]

-- The same key and value go into both.
insert_close :
    (key val : Bytes) (m n : List (Bytes × Bytes))
    → ((k : Bytes) → k ≢ owner_key → lookup k m ≡ lookup k n)
    → (k : Bytes) → k ≢ owner_key
    → lookup k (insert key val m) ≡ lookup k (insert key val n)
insert_close key val m n h k e =
    lookup-insert key k val m ∙ rw (h k e) (sym (lookup-insert key k val n))

-- The owner goes into both.
insert_owner :
    (v w : Bytes) (m n : List (Bytes × Bytes))
    → ((k : Bytes) → k ≢ owner_key → lookup k m ≡ lookup k n)
    → (k : Bytes) → k ≢ owner_key
    → lookup k (insert owner_key v m) ≡ lookup k (insert owner_key w n)
insert_owner v w m n h k e =
    let other : same owner_key k ≡ false = ground (arith, same_iff owner_key k, e) in
    lookup-insert_ne owner_key k v m other ∙ h k e ∙ sym (lookup-insert_ne owner_key k w n other)

-- A line with a key is no brace.
braces :
    (t : Bytes) (c : ℕ) {p : Bytes × Bytes}
    → kv_line (c ∷ []) ≡ none
    → kv_line t ≡ some p
    → same t (c ∷ []) ≡ false
braces t c e h = elim (Bool-cases (same t (c ∷ []))) [
  | inl y ↦ cc (sym h ∙ ap kv_line ((same_iff t (c ∷ [])).0 y) ∙ e)
  | inr n ↦ n
]

open_keyless : kv_line (b'{' ∷ []) ≡ none
unfolding kv_line with_key quoted trim_space trim_left trim_right keep_before
open_keyless = refl

close_keyless : kv_line (b'}' ∷ []) ≡ none
unfolding kv_line with_key quoted trim_space trim_left trim_right keep_before
close_keyless = refl

read_line-key :
    (a : Acf) (t : Bytes) {k v : Bytes} → kv_line t ≡ some (k, v) → read_line a t ≡ enter_key a k v
unfolding read_line key_or_section
read_line-key a t h = rw (braces t b'{' open_keyless h, braces t b'}' close_keyless h, h)

owner_unlike_manifest : (k : Bytes) → lower k ≡ owner_key → equal_fold k (text "manifest") ≡ false
unfolding equal_fold
owner_unlike_manifest k h = rw h (unfold lower same text in refl)

enter_key-owner :
    (a : Acf) (k v : Bytes)
    → lower k ≡ owner_key
    → enter_key a k v ≡ (if at_top a.section then record a { kv = insert owner_key v a.kv } else a)
unfolding enter_key
enter_key-owner a k v h = elim (Bool-cases (at_top a.section)) [
  | inl y ↦ rw (y, h)
  | inr n ↦ elim (Bool-cases (in_depot a.section)) [
    | inl d ↦ rw (n, d, owner_unlike_manifest k h)
    | inr f ↦ rw (n, f)
  ]
]

Close-if :
    (s t : Bool) {a b c d : Acf}
    → s ≡ t
    → Close a b
    → Close c d
    → Close (if s then a else c) (if t then b else d)
Close-if true true e h k = h
Close-if true false e h k = cc
Close-if false true e h k = cc
Close-if false false e h k = k

Close-owner :
    (a b : Acf) (v w : Bytes)
    → Close a b
    → Close (record a { kv = insert owner_key v a.kv }) (record b { kv = insert owner_key w b.kv })
Close-owner a b v w h = record {
  keys = insert_owner v w a.kv b.kv h.keys;
  none_yet = no_keys-insert owner_key v a.kv ∙ sym (no_keys-insert owner_key w b.kv);
  depots = h.depots;
  section = h.section;
  depot = h.depot;
}

enter_key-Close : (a b : Acf) (k v : Bytes) → Close a b → Close (enter_key a k v) (enter_key b k v)
unfolding enter_key
enter_key-Close a b k v h =
    Close-if _ _ (ap at_top h.section)
      (record {
        keys = insert_close (lower k) v a.kv b.kv h.keys;
        none_yet = no_keys-insert (lower k) v a.kv ∙ sym (no_keys-insert (lower k) v b.kv);
        depots = h.depots;
        section = h.section;
        depot = h.depot;
      })
      (Close-if _ _ (ap (λ s. in_depot s && equal_fold k (text "manifest")) h.section)
        (record {
          keys = h.keys;
          none_yet = h.none_yet;
          depots = ap (λ d. insert d v a.depots) h.depot ∙ ap (insert b.current_depot v) h.depots;
          section = h.section;
          depot = h.depot;
        })
        h)

leave-Close : (a b : Acf) → Close a b → Close (leave a) (leave b)
unfolding leave
leave-Close a b h = record {
  keys = h.keys;
  none_yet = h.none_yet;
  depots = h.depots;
  section = ap popped h.section;
  depot = rw (h.section, h.depot);
}

open_section-Close :
    (a b : Acf) (o : Option Bytes) → Close a b → Close (open_section a o) (open_section b o)
unfolding open_section
open_section-Close a b none h = h
open_section-Close a b (some n) h = record {
  keys = h.keys;
  none_yet = h.none_yet;
  depots = h.depots;
  section = ap (λ s. n ∷ s) h.section;
  depot = rw (h.section, h.depot);
}

key_or_section-Close :
    (a b : Acf) (t : Bytes) (o : Option (Bytes × Bytes))
    → Close a b
    → Close (key_or_section a t o) (key_or_section b t o)
unfolding key_or_section
key_or_section-Close a b t none h = open_section-Close a b (bare_token t) h
key_or_section-Close a b t (some (k, v)) h = enter_key-Close a b k v h

read_line-same : (a b : Acf) (t : Bytes) → Close a b → Close (read_line a t) (read_line b t)
unfolding read_line
read_line-same a b t h =
    Close-if _ _ refl h
      (Close-if _ _ refl (leave-Close a b h) (key_or_section-Close a b t (kv_line t) h))

read_line-Close :
    (a b : Acf) {t u : Bytes} → Alike t u → Close a b → Close (read_line a t) (read_line b u)
read_line-Close a b (alike t) h = read_line-same a b t h
read_line-Close a b (owners t u k l v w p q e f) h =
    let left = read_line-key a t p ∙ enter_key-owner a k v e in
    let right = read_line-key b u q ∙ enter_key-owner b l w f in
    subst₂ Close (sym left) (sym right)
      (Close-if _ _ (ap at_top h.section) (Close-owner a b v w h) h)

pub read_lines-Close :
    (ls ms : List Bytes) (a b : Acf)
    → AllAlike ls ms
    → Close a b
    → Close (read_lines a ls) (read_lines b ms)
unfolding read_lines
read_lines-Close [] [] a b e h = h
read_lines-Close [] (m ∷ ms) a b e h = elim e [ ]
read_lines-Close (l ∷ ls) [] a b e h = elim e [ ]
read_lines-Close (l ∷ ls) (m ∷ ms) a b e h =
    read_lines-Close ls ms _ _ e.1 (read_line-Close a b e.0 h)
