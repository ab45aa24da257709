-- ===== src/Journal/Sums/RoundTrip.antt =====
-- The manifest of sc-capture/internal/journal/hashes.go, written and read back.
use star_konflict.Base.{
  ℕ, ◌<◌, ◌≡◌, ◌≢◌, refl, sym, ap, ◌∙◌, Bool, true, false, List, [], ◌∷◌, ◌++◌, Bytes, same,
  same_iff, none, some, if◌then◌else◌, ◌==◌, length, map, All, arith, append_assoc, inr, lt→ltb,
  if_true, same_refl,
}
use star_konflict.Base.Map.{lookup, insert, keys, bytes_eq, Every, Every-lookup, lookup-insert}
use star_konflict.Base.Decimal.{Without, Without-append}
use star_konflict.Base.Strings.{
  trim_space, trim_left, trim_right, behind, cut_blanks, scan, scanned, lines_from, drop_cr,
  last_line, max_token, insert_string, sort_strings,
}
use star_konflict.Base.Strings.Laws.{
  trim_left-solid, trim_right-append, trim_space-drop_cr, lines_from-Ended, lines_from-line,
}
use star_konflict.Journal.Sums.{
  or_empty, digest_of, sum_line, sum_lines, write_sums, is_hex, all_hex, decodes, SumsRead, sums,
  parts_of, split_sum, read_part, read_line, read_loop, read_sums,
}

-- A digest and a name that a line can hold: hexadecimal digits in pairs, and a name without a
-- newline and without blanks at its ends.
pub record Clean (n d : Bytes) : Type 0 where
  pub digest : decodes d ≡ true
  pub digest_some : d ≢ []
  pub name_some : n ≢ []
  pub name_line : Without b'\n' n
  pub name_left : trim_left n ≡ n
  pub name_right : trim_right n ≡ n
  pub short : length (d ++ (b' ' ∷ b' ' ∷ n)) < max_token

hex-Without : (c : ℕ) (d : Bytes) → is_hex c ≡ false → all_hex d ≡ true → Without c d
unfolding all_hex
hex-Without c [] h k = tt
hex-Without c (x ∷ d) h k =
    let e : is_hex x ≡ true = ground arith in
    (λ f. cc (rw f at e), hex-Without c d h (ground arith))

decodes-hex : (d : Bytes) → decodes d ≡ true → all_hex d ≡ true
unfolding decodes
decodes-hex d h = ground arith

-- The first two blanks stand behind the digest.
cut_blanks-digest :
    (d n : Bytes) → Without b' ' d → cut_blanks (d ++ (b' ' ∷ b' ' ∷ n)) ≡ some (d, n)
unfolding cut_blanks behind
cut_blanks-digest [] n h = refl
cut_blanks-digest (c ∷ []) n h = let e : (c == b' ') ≡ false = ground (arith, h.0) in rw e
cut_blanks-digest (c ∷ x ∷ d) n h =
    let e : (c == b' ') ≡ false = ground (arith, h.0) in rw (e, cut_blanks-digest (x ∷ d) n h.1)

trim_left-hex : (d s : Bytes) → d ≢ [] → all_hex d ≡ true → trim_left (d ++ s) ≡ d ++ s
unfolding all_hex
trim_left-hex [] s h k = absurd (h refl)
trim_left-hex (c ∷ d) s h k = trim_left-solid c (d ++ s) (ground arith)

trim_space-line :
    (n d : Bytes) → Clean n d → trim_space (d ++ (b' ' ∷ b' ' ∷ n)) ≡ d ++ (b' ' ∷ b' ' ∷ n)
unfolding trim_space
trim_space-line n d h =
    let whole : (d ++ (b' ' ∷ b' ' ∷ [])) ++ n ≡ d ++ (b' ' ∷ b' ' ∷ n) =
      append_assoc d (b' ' ∷ b' ' ∷ []) n in
    ap trim_right (trim_left-hex d _ h.digest_some (decodes-hex d h.digest))
    ∙ ap trim_right (sym whole)
    ∙ trim_right-append (d ++ (b' ' ∷ b' ' ∷ [])) n (λ e. h.name_some (sym h.name_right ∙ e))
    ∙ rw h.name_right whole

read_line-some :
    (l : Bytes) (next : List (Bytes × Bytes) → SumsRead) (out : List (Bytes × Bytes))
    → l ≢ []
    → read_line l next out ≡ read_part l (split_sum l) next out
unfolding read_line
read_line-some [] next out h = absurd (h refl)
read_line-some (c ∷ l) next out h = refl

append-ne-nil_left : (d s : Bytes) → d ≢ [] → d ++ s ≢ []
append-ne-nil_left [] s h e = h refl
append-ne-nil_left (c ∷ d) s h e = cc

read_line-sum :
    (n d : Bytes) (next : List (Bytes × Bytes) → SumsRead) (out : List (Bytes × Bytes))
    → Clean n d
    → read_line (trim_space (d ++ (b' ' ∷ b' ' ∷ n))) next out ≡ next (insert n d out)
unfolding split_sum parts_of read_part
read_line-sum n d next out h =
    let blank = hex-Without b' ' d refl (decodes-hex d h.digest) in
    let trimmed : trim_space n ≡ n =
      unfold trim_space in ap trim_right h.name_left ∙ h.name_right in
    ap (λ l. read_line l next out) (trim_space-line n d h)
    ∙ read_line-some _ next out (append-ne-nil_left d _ h.digest_some)
    ∙ rw (cut_blanks-digest d n blank, h.digest, trimmed)

module _ (m : List (Bytes × Bytes)) where
  abbrev IsClean : Bytes → Type 0
  IsClean n = Clean n (digest_of m n)

  lines_from-sum_lines :
      (ns : List Bytes) → All IsClean ns → lines_from [] (sum_lines m ns) ≡ map (sum_line m) ns
  unfolding sum_lines lines_from last_line
  lines_from-sum_lines [] h = refl
  lines_from-sum_lines (n ∷ ns) h =
      let bare : Without b'\n' (sum_line m n) =
        Without-append b'\n' (digest_of m n) _ (hex-Without b'\n' _ refl (decodes-hex _ h.0.digest))
          (omega arith, (omega arith, h.0.name_line)) in
      lines_from-Ended (sum_line m n ++ b'\n' ∷ []) (sum_lines m ns) (inr (sum_line m n, refl))
      ∙ rw (lines_from-line [] (sum_line m n) bare, lines_from-sum_lines ns h.1)

  scanned-sum_lines :
      (ns : List Bytes)
      → All IsClean ns
      → scanned (map (sum_line m) ns) ≡ (map (λ n. drop_cr (sum_line m n)) ns, true)
  unfolding scanned
  scanned-sum_lines [] h = refl
  scanned-sum_lines (n ∷ ns) h =
      rw (lt→ltb (length (sum_line m n)) max_token h.0.short, scanned-sum_lines ns h.1)

  -- The names entered one after the other.
  abbrev enter : List Bytes → List (Bytes × Bytes) → List (Bytes × Bytes)
  enter [] out = out
  enter (n ∷ ns) out = enter ns (insert n (digest_of m n) out)

  read_loop-enter :
      (ns : List Bytes) (out : List (Bytes × Bytes))
      → All IsClean ns
      → read_loop (map (λ n. drop_cr (sum_line m n)) ns) true out ≡ sums (enter ns out)
  unfolding read_loop
  read_loop-enter [] out h = refl
  read_loop-enter (n ∷ ns) out h =
      rw (trim_space-drop_cr (sum_line m n)) (read_line-sum n (digest_of m n) _ out h.0)
      ∙ read_loop-enter ns _ h.1

abbrev mem : Bytes → List Bytes → Bool
mem k [] = false
mem k (n ∷ ns) = if same n k then true else mem k ns

mem-insert_string :
    (k a : Bytes) (bs : List Bytes)
    → mem k (insert_string a bs) ≡ (if same a k then true else mem k bs)
unfolding insert_string
mem-insert_string k a [] = refl
mem-insert_string k a (b ∷ bs) = ground (arith, mem-insert_string k a bs)

mem-sort_strings : (k : Bytes) (ns : List Bytes) → mem k (sort_strings ns) ≡ mem k ns
unfolding sort_strings
mem-sort_strings k [] = refl
mem-sort_strings k (n ∷ ns) = mem-insert_string k n (sort_strings ns) ∙ rw (mem-sort_strings k ns)

lookup-mem :
    (k : Bytes) (m : List (Bytes × Bytes))
    → lookup k m ≡ (if mem k (keys m) then some (digest_of m k) else none)
unfolding lookup digest_of or_empty
lookup-mem k [] = refl
lookup-mem k ((n, d) ∷ m) = ground (arith, lookup-mem k m)

lookup-enter :
    (m : List (Bytes × Bytes)) (k : Bytes) (ns : List Bytes) (out : List (Bytes × Bytes))
    → lookup k (enter m ns out) ≡ (if mem k ns then some (digest_of m k) else lookup k out)
lookup-enter m k [] out = refl
lookup-enter m k (n ∷ ns) out =
    lookup-enter m k ns _ ∙ ground (arith, lookup-insert n k (digest_of m n) out, same_iff n k)

All-mem {ℓ} :
    {P : Bytes → Type ℓ} (ns : List Bytes) → ((n : Bytes) → mem n ns ≡ true → P n) → All P ns
All-mem [] f = tt
All-mem (n ∷ ns) f =
    (f n (if_true _ _ (same_refl n)), All-mem ns (λ k h. f k (ground (arith, same_iff n k))))

-- Every name that is written has a digest in the map.
All-Clean : (m : List (Bytes × Bytes)) → Every Clean m → All (IsClean m) (sort_strings (keys m))
All-Clean m h = All-mem _ clean
  where
    clean : (n : Bytes) → mem n (sort_strings (keys m)) ≡ true → IsClean m n
    clean n e =
        let here : lookup n m ≡ some (digest_of m n) =
          lookup-mem n m ∙ if_true _ _ (sym (mem-sort_strings n (keys m)) ∙ e) in
        Every-lookup Clean n m here h

-- Reading back a manifest that `WriteSums` has written for names and digests that a line can hold
-- succeeds, and gives a map with the same digest for each name and none for any other.
pub read_sums-write_sums :
    (m : List (Bytes × Bytes))
    → Every Clean m
    → (out : List (Bytes × Bytes)) × (read_sums (write_sums m) ≡ sums out)
      × ((k : Bytes) → lookup k out ≡ lookup k m)
unfolding read_sums write_sums scan lookup
read_sums-write_sums m h =
    let ns = sort_strings (keys m) in
    let clean = All-Clean m h in
    let found = λ (k : Bytes).
      lookup-enter m k ns [] ∙ rw (mem-sort_strings k (keys m)) (sym (lookup-mem k m)) in
    (
      enter m ns [],
      rw (lines_from-sum_lines m ns clean, scanned-sum_lines m ns clean)
          (read_loop-enter m ns [] clean),
      found,
    )
