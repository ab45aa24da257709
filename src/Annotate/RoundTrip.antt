-- ===== src/Annotate/RoundTrip.antt =====
-- `Format` and `Parse` of sc-capture/internal/annotate/marker.go.
use star_konflict.Base.{
  ℕ, zero, suc, ◌-◌, ◌<◌, ◌≡◌, ◌≢◌, ◌⊎◌, refl, ap, ◌∙◌, [], ◌∷◌, ◌++◌, Bytes, text, same_refl,
  Option, some, length, replicate, arith, inl, inr,
}
use star_konflict.Base.Decimal.{decimal, itoa, Without, IsDigit, decimal-Without, Without-append}
use star_konflict.Base.Int.{pos}
use star_konflict.Base.Strings.{trim_space, trim_left, trim_right, split_n}
use star_konflict.Base.Strings.Laws.{split_n-append, trim_left-solid, trim_right-solid, atoi-padded}
use star_konflict.Annotate.{
  one_line, padded, format, marker, with_mono, with_wall, with_seq, parse_parts, parse,
}

zeros-Without : (c k : ℕ) → b'0' ≢ c → Without c (replicate k b'0')
zeros-Without c zero h = tt
zeros-Without c (suc k) h = (h, zeros-Without c k h)

pub padded-Without : (c n : ℕ) → (IsDigit c → ⊥) → Without c (padded (pos n))
unfolding padded
padded-Without c n h =
    Without-append c _ _ (zeros-Without c _ (λ e. h (omega arith))) (decimal-Without c n h)

-- Six fields behind one another with bars between them.
abbrev row : Bytes → Bytes → Bytes → Bytes → Bytes → Bytes → Bytes
row a b c d e f = a ++ (b'|' ∷ (b ++ (b'|' ∷ (c ++ (b'|' ∷ (d ++ (b'|' ∷ (e ++ (b'|' ∷ f)))))))))

split_n-row :
    (a b c d e f : Bytes)
    → Without b'|' a
    → Without b'|' b
    → Without b'|' c
    → Without b'|' d
    → Without b'|' e
    → split_n b'|' 6 (row a b c d e f) ≡ a ∷ b ∷ c ∷ d ∷ e ∷ f ∷ []
unfolding split_n
split_n-row a b c d e f ha hb hc hd he =
    split_n-append b'|' 4 a _ ha
    ∙ ap (λ t. a ∷ t)
        (split_n-append b'|' 3 b _ hb
          ∙ ap (λ t. b ∷ t)
              (split_n-append b'|' 2 c _ hc
                ∙ ap (λ t. c ∷ t)
                    (split_n-append b'|' 1 d _ hd
                      ∙ ap (λ t. d ∷ t) (split_n-append b'|' 0 e f he))))

trim_right-row : (a b c d e f : Bytes) → trim_right (row a b c d e f) ≡ row a b c d e (trim_right f)
trim_right-row a b c d e f =
    trim_right-solid a b'|' _ refl
    ∙ ap (λ t. a ++ (b'|' ∷ t))
        (trim_right-solid b b'|' _ refl
          ∙ ap (λ t. b ++ (b'|' ∷ t))
              (trim_right-solid c b'|' _ refl
                ∙ ap (λ t. c ++ (b'|' ∷ t))
                    (trim_right-solid d b'|' _ refl
                      ∙ ap (λ t. d ++ (b'|' ∷ t)) (trim_right-solid e b'|' f refl))))

trim_left-tag : (r : Bytes) → trim_left (text "SCMARK" ++ r) ≡ text "SCMARK" ++ r
unfolding text
trim_left-tag r = trim_left-solid b'S' _ refl

pub tag-Without : (c : ℕ) → c < b'A' ⊎ b'Z' < c → Without c (text "SCMARK")
unfolding text
tag-Without c (inl h) = omega arith
tag-Without c (inr h) = omega arith

trim_space-row :
    (b c d e f : Bytes)
    → trim_space (row (text "SCMARK") b c d e f) ≡ row (text "SCMARK") b c d e (trim_right f)
unfolding trim_space
trim_space-row b c d e f =
    ap trim_right (trim_left-tag _) ∙ trim_right-row (text "SCMARK") b c d e f

-- What reading back leaves of a label: its newlines are blanks, and it ends in no blank.
abbrev pub kept_label : Bytes → Bytes
kept_label l = trim_right (one_line l)

module _ (format_time : ℕ → Bytes) (parse_time : Bytes → Option ℕ) (kept_time : ℕ → ℕ)
    (time_read : (w : ℕ) → parse_time (format_time w) ≡ some (kept_time w))
    (bar_free : (w : ℕ) → Without b'|' (format_time w)) where
  -- A marker with a sequence number and a monotonic time below 2^63, and a kind that holds no
  -- bar, is read back from its line: the time as `parse_time` reads what `format_time` writes, the
  -- label with its newlines replaced by blanks and without blanks at its end, bars included.
  pub parse-format :
      (n k w : ℕ) (kind label : Bytes)
      → n < 9223372036854775808
      → k < 9223372036854775808
      → Without b'|' kind
      → parse parse_time (
          format format_time
            (record { seq = pos n; wall = w; mono = pos k; kind = kind; label = label }))
        ≡ marker (record {
          seq = pos n;
          wall = kept_time w;
          mono = pos k;
          kind = kind;
          label = kept_label label;
        })
  unfolding parse format itoa parse_parts with_seq with_wall with_mono padded
  parse-format n k w kind label hn hk bare =
      let parts =
        ap (split_n b'|' 6)
          (trim_space-row (padded (pos n)) (format_time w) (decimal k) kind (one_line label))
        ∙ split_n-row (text "SCMARK") (padded (pos n)) (format_time w) (decimal k) kind
            (kept_label label) (tag-Without b'|' (inr (omega arith)))
            (padded-Without b'|' n (λ d. omega (arith, d))) (bar_free w)
            (decimal-Without b'|' k (λ d. omega (arith, d))) bare in
      rw (
        parts,
        same_refl (text "SCMARK"),
        atoi-padded (6 - length (decimal n)) n hn,
        time_read w,
        atoi-padded 0 k hk,
      )
