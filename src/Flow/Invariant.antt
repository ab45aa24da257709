-- ===== src/Flow/Invariant.antt =====
-- What holds of a table between two calls, and that the three operations keep it.
use star_konflict.Base.{
  ℕ, zero, suc, ◌+◌, ◌-◌, ◌<◌, Bool, List, [], ◌∷◌, ◌++◌, Bytes, ◌≡◌, refl, sym, ap, ◌∙◌, inl, inr,
  arith, Bool-cases, Option-cases, some, none, length, length-append, replicate,
}
use star_konflict.Base.Decimal.{decimal, value, value-decimal}
use star_konflict.Base.Map.{
  lookup, insert, Every, Every-insert, Every-lookup, keys, keys-insert_new, keys-insert_old,
}
use star_konflict.Flow.Keys.{Key, key_eq, new_key}
use star_konflict.Flow.Ends.{Serves, classify-Serves}
use star_konflict.Flow.{Table, Connection, conn_id_of, new_table, fresh, observe_found, observe}

value_zeros : (k : ℕ) (d : Bytes) → value 0 (replicate k b'0' ++ d) ≡ value 0 d
value_zeros zero d = refl
value_zeros (suc k) d = value_zeros k d

-- Connection ids of different numbers differ, past `c999` too.
pub conn_id_of-injective : (n k : ℕ) → conn_id_of n ≡ conn_id_of k → n ≡ k
unfolding conn_id_of
conn_id_of-injective n k e =
    let n' = replicate (3 - length (decimal n)) b'0' ++ decimal n in
    let k' = replicate (3 - length (decimal k)) b'0' ++ decimal k in
    let tails : n' ≡ k' = cc in
    sym (value_zeros (3 - length (decimal n)) (decimal n) ∙ value-decimal n)
    ∙ ap (value 0) tails
    ∙ (value_zeros (3 - length (decimal k)) (decimal k) ∙ value-decimal k)

-- An entry stands under its own key, and its ends are those of the key.
pub record Fits (k : Key) (c : Connection) : Type 0 where
  pub own_key : c.key ≡ k
  pub own_ends : Serves k c.endpoints

-- The connections are numbered in the order of their first packets.
abbrev pub Numbered : ℕ → List (Key × Connection) → Type 0
Numbered i [] = Unit {0}
Numbered i ((k, c) ∷ m) = (c.conn_id ≡ conn_id_of (suc i)) × Numbered (suc i) m

pub record IsValid (t : Table) : Type 0 where
  pub fits : Every Fits t.by_key
  pub ordered : t.order ≡ keys t.by_key
  pub counted : t.next_id ≡ length t.order
  pub numbered : Numbered 0 t.by_key

pub new_table-IsValid : IsValid new_table
unfolding new_table
new_table-IsValid = record { fits = tt; ordered = refl; counted = refl; numbered = tt }

Numbered-insert_new :
    (i : ℕ) (k : Key) (c : Connection) (m : List (Key × Connection))
    → lookup k m ≡ none
    → c.conn_id ≡ conn_id_of (suc (i + length (keys m)))
    → Numbered i m
    → Numbered i (insert k c m)
unfolding lookup insert
Numbered-insert_new i k c [] f e h = (e ∙ ap conn_id_of (omega arith), tt)
Numbered-insert_new i k c ((j, d) ∷ m) f e h = elim (Bool-cases (key_eq.beq j k)) [
  | inl y ↦ cc (rw y at f)
  | inr n ↦
      let number : c.conn_id ≡ conn_id_of (suc (suc i + length (keys m))) =
        e ∙ ap conn_id_of (omega arith) in
      rw n (h.0, Numbered-insert_new (suc i) k c m (rw n at f) number h.1)
]

Numbered-insert_old :
    (i : ℕ) (k : Key) (c d : Connection) (m : List (Key × Connection))
    → lookup k m ≡ some d
    → c.conn_id ≡ d.conn_id
    → Numbered i m
    → Numbered i (insert k c m)
unfolding lookup insert
Numbered-insert_old i k c d [] f e h = cc
Numbered-insert_old i k c d ((j, x) ∷ m) f e h = elim (Bool-cases (key_eq.beq j k)) [
  | inl y ↦
      let value : x ≡ d = cc (rw y at f) in
      rw y (e ∙ ap (λ (z : Connection). z.conn_id) (sym value) ∙ h.0, h.1)
  | inr n ↦ rw n (h.0, Numbered-insert_old (suc i) k c d m (rw n at f) e h.1)
]

-- Writing a changed connection back under its key.
pub write_back :
    (t : Table) (k : Key) (old c : Connection)
    → IsValid t
    → lookup k t.by_key ≡ some old
    → c.conn_id ≡ old.conn_id
    → Fits k c
    → IsValid (record t { by_key = insert k c t.by_key })
write_back t k old c v f e fit = record {
  fits = Every-insert Fits k c t.by_key fit v.fits;
  ordered = v.ordered ∙ sym (keys-insert_old k c t.by_key f);
  counted = v.counted;
  numbered = Numbered-insert_old 0 k c old t.by_key f e v.numbered;
}

observe_new-IsValid :
    (t : Table) (src : Bytes) (sp : ℕ) (dst : Bytes) (dp : ℕ) (udp : Bool) (now : ℕ)
    → IsValid t
    → lookup (new_key src sp dst dp udp).0 t.by_key ≡ none
    → IsValid (observe_found t (new_key src sp dst dp udp).0 none src sp dst dp udp now).table
unfolding observe_found fresh
observe_new-IsValid t src sp dst dp udp now v f =
    let k = (new_key src sp dst dp udp).0 in
    let c = fresh t k src sp dst dp udp now in
    let count : t.next_id ≡ length (keys t.by_key) = v.counted ∙ ap length v.ordered in
    record {
      fits =
          Every-insert Fits k c t.by_key
            (record { own_key = refl; own_ends = classify-Serves t src sp dst dp udp }) v.fits;
      ordered = ap (λ o. o ++ k ∷ []) v.ordered ∙ sym (keys-insert_new k c t.by_key f);
      counted = omega (arith, v.counted, length-append t.order (k ∷ []));
      numbered =
          Numbered-insert_new 0 k c t.by_key f (ap conn_id_of (omega (arith, count))) v.numbered;
    }

-- `Observe` keeps a table valid, on a new flow and on a known one: the order lists the keys of
-- the map, the counter is their number, the connection made n-th has the n-th id, and each
-- connection holds its own key and has that key's two ends.
pub observe-IsValid :
    (t : Table) (src : Bytes) (sp : ℕ) (dst : Bytes) (dp : ℕ) (udp : Bool) (now : ℕ)
    → IsValid t
    → IsValid (observe t src sp dst dp udp now).table
unfolding observe
observe-IsValid t src sp dst dp udp now v =
    let k = (new_key src sp dst dp udp).0 in
    elim (Option-cases (lookup k t.by_key)) [
      | inl f ↦ rw f (observe_new-IsValid t src sp dst dp udp now v f)
      | inr (old, f) ↦
          let fit = Every-lookup Fits k t.by_key f v.fits in
          rw f (
            unfold observe_found in
            write_back t k old (record old { last_seen = now }) v f refl
              (record { own_key = fit.own_key; own_ends = fit.own_ends }))
    ]

number_above :
    (i : ℕ) (k : Key) {c : Connection} (m : List (Key × Connection))
    → lookup k m ≡ some c
    → Numbered i m
    → (n : ℕ) × (i < n) × (c.conn_id ≡ conn_id_of n)
unfolding lookup
number_above i k [] f h = cc
number_above i k {c} ((j, d) ∷ m) f h = elim (Bool-cases (key_eq.beq j k)) [
  | inl y ↦
      let value : d ≡ c = cc (rw y at f) in
      (suc i, omega arith, ap (λ (z : Connection). z.conn_id) (sym value) ∙ h.0)
  | inr n ↦
      let (l, above, e) = number_above (suc i) k m (rw n at f) h.1 in (l, omega (arith, above), e)
]

id_once :
    (i : ℕ) (k j : Key) {c d : Connection} (m : List (Key × Connection))
    → lookup k m ≡ some c
    → lookup j m ≡ some d
    → c.conn_id ≡ d.conn_id
    → Numbered i m
    → k ≡ j
unfolding lookup
id_once i k j [] f g e h = cc
id_once i k j {c} {d} ((x, w) ∷ m) f g e h = elim (Bool-cases (key_eq.beq x k)) [
  | inl y ↦ elim (Bool-cases (key_eq.beq x j)) [
    | inl z ↦ sym ((key_eq.beq_iff x k).0 y) ∙ (key_eq.beq_iff x j).0 z
    | inr z ↦
        let value : w ≡ c = cc (rw y at f) in
        let (l, above, number) = number_above (suc i) j m (rw z at g) h.1 in
        let clash =
          conn_id_of-injective (suc i) l
            (sym h.0 ∙ ap (λ (q : Connection). q.conn_id) value ∙ e ∙ number) in
        absurd (omega (arith, clash, above))
  ]
  | inr y ↦ elim (Bool-cases (key_eq.beq x j)) [
    | inl z ↦
        let value : w ≡ d = cc (rw z at g) in
        let (l, above, number) = number_above (suc i) k m (rw y at f) h.1 in
        let clash =
          conn_id_of-injective (suc i) l
            (sym h.0 ∙ ap (λ (q : Connection). q.conn_id) value ∙ sym e ∙ number) in
        absurd (omega (arith, clash, above))
    | inr z ↦ id_once (suc i) k j m (rw y at f) (rw z at g) e h.1
  ]
]

-- In a valid table, connections with one id belong to one flow.
pub conn_id_unique :
    (t : Table) (k j : Key) {c d : Connection}
    → IsValid t
    → lookup k t.by_key ≡ some c
    → lookup j t.by_key ≡ some d
    → c.conn_id ≡ d.conn_id
    → k ≡ j
conn_id_unique t k j v f g e = id_once 0 k j t.by_key f g e v.numbered
