-- ===== src/Scproto/Framing/Next.antt =====
-- `Scanner.Next` and `Scanner.Feed` against the first frame of the bytes that are pending.
use star_konflict.Base.{
  ℕ, ◌+◌, ◌-◌, ◌≤◌, true, false, not, ◌&&◌, ◌++◌, ◌≡◌, sym, ap, ◌∙◌, Bytes, ltb, ltb-false→le,
  if◌then◌else◌, length, take, drop, arith, Bool-cases, if_true, if_false, inl, inr, length-append,
  length-take, length-drop, drop-append, drop_all,
}
use star_konflict.Scproto.Checksum.{header_size}
use star_konflict.Scproto.Framing.{
  Header, Message, Scanner, Outcome, got, more, err_desync, slice, be_uint32, checksum_valid,
  special_length_threshold, special_message, parse_header, compact, next_header, feed, next,
  next_body, accept,
}
use star_konflict.Scproto.Framing.Spec.{
  Frame, whole, partial, broken, frame, frame_body, frame_header, cut,
}

-- The bytes that are fed and not yet parsed.
abbrev pub pending : Scanner → Bytes
pending s = drop s.off s.buf

-- The read offset never runs past the buffer.
abbrev pub IsValid : Scanner → Type 0
IsValid s = s.off ≤ length s.buf

-- What a call of `Next` makes of a scanner whose pending bytes begin with the given frame.
abbrev pub after : Scanner → Frame → Scanner × Outcome
after s (whole m rest) = (record s { off = s.off + length m.raw }, got m)
after s partial = (s, more)
after s broken = (record s { desync = true }, err_desync)

slice-pending : (s : Scanner) (n : ℕ) → slice s.buf s.off (s.off + n) ≡ take n (pending s)
slice-pending s n = ap (λ k. take k (pending s)) (omega arith)

length-pending : (s : Scanner) → length s.buf - s.off ≡ length (pending s)
length-pending s = sym (length-drop s.off s.buf)

length-take_le : (n : ℕ) (p : Bytes) → n ≤ length p → length (take n p) ≡ n
length-take_le n p h = omega (arith, length-take n p)

accept-after :
    (s : Scanner) (total : ℕ) (msg : Message) (rest : Bytes)
    → length msg.raw ≡ total
    → accept s total msg
      ≡ after s (if s.checked && not (checksum_valid msg) then broken else whole msg rest)
unfolding accept
accept-after s total msg rest h = elim (Bool-cases (s.checked && not (checksum_valid msg))) [
  | inl bad ↦ rw bad
  | inr good ↦ rw (good, h)
]

next_body-frame_body :
    (s : Scanner) (hdr : Header) → next_body s hdr ≡ after s (frame_body s.checked hdr (pending s))
unfolding next_body frame_body
next_body-frame_body s hdr =
    rw (slice-pending s (header_size + hdr.length), length-pending s)
      (elim (Bool-cases (ltb (length (pending s)) (header_size + hdr.length))) [
        | inl short ↦ rw short
        | inr enough ↦ rw enough (
            accept-after s _ (cut (header_size + hdr.length) hdr (pending s)) _
              (unfold cut in length-take_le _ _ (ltb-false→le _ _ enough)))
      ])

next_header-frame_header :
    (s : Scanner) (h : Bytes)
    → header_size ≤ length (pending s)
    → length h ≡ header_size
    → next_header s h ≡ after s (frame_header s.checked h (pending s))
unfolding next_header frame_header special_message
next_header-frame_header s h fits width =
    elim (Bool-cases (ltb special_length_threshold (be_uint32 (slice h 0 4)))) [
      | inl special ↦ rw (special, width)
      | inr plain ↦ rw plain (next_body-frame_body s (parse_header h))
    ]

-- On a scanner that is not stopped, `Next` does what the first frame of the pending bytes says:
-- it returns a whole frame and moves behind it, asks for more bytes of a partial one, and stops
-- at one whose checksum is wrong.
pub next-frame : (s : Scanner) → s.desync ≡ false → next s ≡ after s (frame s.checked (pending s))
unfolding next frame
next-frame s running =
    if_false _ _ running
    ∙ rw (slice-pending s header_size, length-pending s)
        (elim (Bool-cases (ltb (length (pending s)) header_size)) [
          | inl short ↦ rw short
          | inr enough ↦
              let fits = ltb-false→le _ _ enough in
              rw enough (next_header-frame_header s _ fits (length-take_le _ _ fits))
        ])

-- A stopped scanner returns the error and stays as it is.
pub next_stopped : (s : Scanner) → s.desync ≡ true → next s ≡ (s, err_desync)
unfolding next
next_stopped s stopped = if_true _ _ stopped

-- What compaction leaves as it is.
record Keeps (s t : Scanner) : Type 0 where
  bytes : pending t ≡ pending s
  valid : IsValid t
  stop : t.desync ≡ s.desync
  check : t.checked ≡ s.checked

compact-Keeps : (s : Scanner) → IsValid s → Keeps s (compact s)
unfolding compact
compact-Keeps s v = ground (arith, drop_all s.off s.buf)

-- On a valid scanner `Feed` puts the new bytes behind the pending ones, whether or not it
-- compacts the buffer, and keeps the scanner valid and its two flags.
pub feed-pending :
    (s : Scanner) (b : Bytes)
    → IsValid s
    → (pending (feed s b) ≡ pending s ++ b)
      × IsValid (feed s b)
      × ((feed s b).desync ≡ s.desync)
      × ((feed s b).checked ≡ s.checked)
unfolding feed
feed-pending s b v =
    let k = compact-Keeps s v in
    (
      drop-append _ _ b k.valid ∙ rw k.bytes,
      omega (arith, length-append (compact s).buf b, k.valid),
      k.stop,
      k.check,
    )

-- `Next` keeps the read offset inside the buffer, on each of its outcomes.
pub next-IsValid : (s : Scanner) → IsValid s → IsValid (next s).0
unfolding next next_header next_body accept
next-IsValid s v = ground arith
