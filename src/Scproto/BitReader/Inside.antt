-- ===== src/Scproto/BitReader/Inside.antt =====
-- What the readers take of the buffer, on every input.
use star_konflict.Base.{
  ℕ, zero, suc, ◌+◌, ◌*◌, ◌-◌, ◌/◌, ◌%◌, ◌^◌, ◌≤◌, ◌<◌, Bool, true, false, [], ◌∷◌, ◌++◌, ◌≡◌, refl,
  ◌∙◌, Bytes, length, arith, length-append, ltb, ◌==◌, get_elem?, Option, none, some, u8_mod,
  u16_mod, Bool-cases, inl, inr,
}
use mathlib.Core.Path.{subst}
use star_konflict.Scproto.BitReader.{
  BitReader, ReadError, Result, ok, err, M, ◌>>=◌, return, fail, read_bit, uint_loop, uint, bool,
  uint8, uint16, cstring_loop, cstring, max_string_length, eof, bad_width, unterminated,
}

-- On success at least `k` bits are taken, and the value satisfies `P`.
abbrev pub Taken : {A : Type 0} → ℕ → (A → Type 0) → ℕ → ℕ → Result A → Type 0
Taken k P b c (ok a) = (b + k ≤ c) × P a
Taken k P b c (err e) = Unit

pub record Moved {A : Type 0} (k : ℕ) (P : A → Type 0) (r : BitReader) (o : Result A × BitReader)
    : Type 0 where
  pub same_buf : o.1.buf ≡ r.buf
  pub inside : o.1.bit ≤ length r.buf * 8
  pub taken : Taken k P r.bit o.1.bit o.0

-- From inside the buffer, `m` stays inside and leaves the buffer alone.
pub record Inside {A : Type 0} (k : ℕ) (P : A → Type 0) (m : M A) : Type 0 where
  pub run : (r : BitReader) → r.bit ≤ length r.buf * 8 → Moved k P r (m r)

pub Inside-return : {A : Type 0} {P : A → Type 0} (a : A) → P a → Inside 0 P (return a)
unfolding return
Inside-return a p = record {
  run = λ r h. record { same_buf = refl; inside = h; taken = (omega arith, p) };
}

pub Inside-fail :
    {A : Type 0} {P : A → Type 0} (k : ℕ) (e : ReadError) → Inside k P (fail {A = A} e)
unfolding fail
Inside-fail k e = record { run = λ r h. record { same_buf = refl; inside = h; taken = tt } }

pub Inside->>= :
    {A B : Type 0} {P : A → Type 0} {Q : B → Type 0} (j k : ℕ) (m : M A) (f : A → M B)
    → Inside j P m
    → ((a : A) → P a → Inside k Q (f a))
    → Inside (j + k) Q (m >>= f)
unfolding ◌>>=◌
Inside->>= {A} {B} {P} {Q} j k m f p q = record { run = λ r h. after r h (m r) (p.run r h) }
  where
    after :
        (r : BitReader)
        → r.bit ≤ length r.buf * 8
        → (o : Result A × BitReader) → Moved j P r o
        → Moved (j + k) Q r (elim o.0 [ ok x ↦ f x o.1 | err e ↦ (err e, o.1) ])
    after r h (err e, s) mv = record { same_buf = mv.same_buf; inside = mv.inside; taken = tt }
    after r h (ok a, s) mv =
        let next = (q a mv.taken.1).run s (rw mv.same_buf mv.inside) in
        record {
          same_buf = next.same_buf ∙ mv.same_buf;
          inside = subst (λ b. (f a s).1.bit ≤ length b * 8) mv.same_buf next.inside;
          taken = more (f a s).0 next.taken;
        }
      where
        more :
            (x : Result B) → Taken k Q s.bit (f a s).1.bit x → Taken (j + k) Q r.bit (f a s).1.bit x
        more (ok b) t = (omega (arith, t.0, mv.taken.0), t.1)
        more (err e) t = tt

pub Inside-weaken :
    {A : Type 0} {P Q : A → Type 0} (j k : ℕ) (m : M A)
    → k ≤ j
    → ((a : A) → P a → Q a)
    → Inside j P m
    → Inside k Q m
Inside-weaken {A} {P} {Q} j k m le imp p = record { run = λ r h. after r (m r) (p.run r h) }
  where
    after : (r : BitReader) (o : Result A × BitReader) → Moved j P r o → Moved k Q r o
    after r (err e, s) mv = record { same_buf = mv.same_buf; inside = mv.inside; taken = tt }
    after r (ok a, s) mv = record {
      same_buf = mv.same_buf;
      inside = mv.inside;
      taken = (omega (arith, mv.taken.0), imp a mv.taken.1);
    }

get_elem?-length : (xs : Bytes) (i x : ℕ) → get_elem? xs i ≡ some x → i < length xs
get_elem?-length [] i x h = cc
get_elem?-length (y ∷ ys) zero x h = omega arith
get_elem?-length (y ∷ ys) (suc i) x h = omega (arith, get_elem?-length ys i x h)

abbrev pub Any : {A : Type 0} → A → Type 0
Any a = Unit

Inside-read_bit : Inside 1 Any read_bit
unfolding read_bit
Inside-read_bit = record { run = λ r h. at_byte r h (get_elem? r.buf (r.bit / 8)) refl }
  where
    at_byte :
        (r : BitReader)
        → r.bit ≤ length r.buf * 8
        → (o : Option ℕ) → get_elem? r.buf (r.bit / 8) ≡ o
        → Moved {A = ℕ} 1 Any r (elim o [
          | none ↦ (err eof, r)
          | some byte ↦ (ok (byte / 2 ^ (7 - r.bit % 8) % 2), record r { bit = r.bit + 1 })
        ])
    at_byte r h none e = record { same_buf = refl; inside = h; taken = tt }
    at_byte r h (some byte) e = record {
      same_buf = refl;
      inside = omega (arith, get_elem?-length r.buf (r.bit / 8) byte e);
      taken = (omega arith, tt);
    }

Inside-uint_loop : (k v : ℕ) → Inside k Any (uint_loop k v)
unfolding uint_loop
Inside-uint_loop zero v = Inside-return v tt
Inside-uint_loop (suc k) v =
    Inside-weaken (1 + k) (suc k) _ (omega arith) (λ a p. tt)
      (Inside->>= 1 k read_bit _ Inside-read_bit (λ b p. Inside-uint_loop k _))

Inside-uint : (n : ℕ) → Inside n Any (uint n)
unfolding uint
Inside-uint n = elim (Bool-cases (ltb 64 n)) [
  | inl y ↦ rw y (Inside-fail n bad_width)
  | inr m ↦ rw m (Inside-uint_loop n 0)
]

Inside-uint_then :
    {A : Type 0} {P : A → Type 0} (n : ℕ) (f : ℕ → A)
    → ((v : ℕ) → P (f v))
    → Inside n P (uint n >>= (λ v. return (f v)))
Inside-uint_then n f p =
    Inside-weaken (n + 0) n _ (omega arith) (λ a q. q)
      (Inside->>= n 0 (uint n) _ (Inside-uint n) (λ v q. Inside-return (f v) (p v)))

pub Inside-bool : Inside 1 Any bool
unfolding bool
Inside-bool = Inside-uint_then 1 _ (λ v. tt)

pub Inside-uint8 : Inside 8 (λ v. v < u8_mod) uint8
unfolding uint8
Inside-uint8 = Inside-uint_then 8 _ (λ v. omega arith)

pub Inside-uint16 : Inside 16 (λ v. v < u16_mod) uint16
unfolding uint16
Inside-uint16 = Inside-uint_then 16 _ (λ v. omega arith)

-- The byte zero that ends a text is taken too.
Inside-cstring_loop :
    (k : ℕ) (out : Bytes) → Inside 8 (λ s. length s < length out + k) (cstring_loop k out)
unfolding cstring_loop
Inside-cstring_loop zero out = Inside-fail 8 unterminated
Inside-cstring_loop (suc k) out =
    Inside-weaken (8 + 0) 8 _ (omega arith) (λ a q. q)
      (Inside->>= 8 0 uint8 _ Inside-uint8
        (λ c p. at_char c (Inside-cstring_loop k (out ++ c ∷ [])) (c == 0)))
  where
    at_char :
        (c : ℕ)
        → Inside 8 (λ s. length s < length (out ++ c ∷ []) + k) (cstring_loop k (out ++ c ∷ []))
        → (b : Bool)
        → Inside 0
            (λ s. length s < length out + suc k)
            (elim b [ true ↦ return out | false ↦ cstring_loop k (out ++ c ∷ []) ])
    at_char c next true = Inside-return out (omega arith)
    at_char c next false =
        Inside-weaken 8 0 _ (omega arith) (λ s q. omega (arith, q, length-append out (c ∷ []))) next

pub Inside-cstring : Inside 8 (λ s. length s < max_string_length) cstring
unfolding cstring
Inside-cstring = Inside-cstring_loop max_string_length []
