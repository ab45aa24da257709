-- ===== src/Scproto/Framing/Spec.antt =====
-- What framing means, without a buffer or an offset: the first frame of a byte string.
use star_konflict.Base.{
  ℕ, ◌+◌, ◌≤◌, ◌<◌, Bool, not, ◌&&◌, ◌++◌, ◌≡◌, sym, ap, ◌∙◌, ◌≢◌, Bytes, ltb, ltb→lt, lt→ltb,
  ltb-false, ltb-false→le, if◌then◌else◌, length, take, drop, arith, Bool-cases, inl, inr,
  length-append, length-take, take-append, drop-append, take-append-drop,
}
use star_konflict.Scproto.Checksum.{header_size}
use star_konflict.Scproto.Framing.{
  Header, Message, slice, be_uint32, checksum_valid, special_length_threshold, special_message,
  parse_header,
}

-- `whole m rest`: a frame and what stands behind it. `partial`: more bytes are needed.
-- `broken`: the checksum of a complete frame does not match.
pub data Frame : Type 0 where
  whole : Message → Bytes → Frame
  partial : Frame
  broken : Frame

unfoldable pub cut : ℕ → Header → Bytes → Message
cut total hdr p = record {
  header = hdr;
  body = drop header_size (take total p);
  raw = take total p;
}

unfoldable pub frame_body : Bool → Header → Bytes → Frame
unfolding cut
frame_body checked hdr p =
    let total = header_size + hdr.length in
    if ltb (length p) total
    then partial
    else if checked && not (checksum_valid (cut total hdr p))
    then broken
    else whole (cut total hdr p) (drop total p)

unfoldable pub frame_header : Bool → Bytes → Bytes → Frame
frame_header checked h p =
    let len = be_uint32 (slice h 0 4) in
    if ltb special_length_threshold len
    then whole (special_message len h) (drop header_size p)
    else frame_body checked (parse_header h) p

unfoldable pub frame : Bool → Bytes → Frame
frame checked p =
    if ltb (length p) header_size then partial else frame_header checked (take header_size p) p

-- More input behind a frame only joins what follows it.
abbrev pub extend : Frame → Bytes → Frame
extend (whole m rest) b = whole m (rest ++ b)
extend partial b = partial
extend broken b = broken

frame_body-append :
    (checked : Bool) (hdr : Header) (p b : Bytes)
    → header_size + hdr.length ≤ length p
    → frame_body checked hdr (p ++ b) ≡ extend (frame_body checked hdr p) b
unfolding frame_body
frame_body-append checked hdr p b h =
    rw
      (
        take-append (header_size + hdr.length) p b h,
        drop-append (header_size + hdr.length) p b h,
        ltb-false (length p) (header_size + hdr.length) h,
        ltb-false (length (p ++ b)) (header_size + hdr.length) (omega (arith, length-append p b)),
      )
      (ground arith)

frame_body_partial :
    (checked : Bool) (hdr : Header) (p : Bytes)
    → length p < header_size + hdr.length
    → frame_body checked hdr p ≡ partial
unfolding frame_body
frame_body_partial checked hdr p h = rw (lt→ltb _ _ h)

frame_header-append :
    (checked : Bool) (h p b : Bytes)
    → header_size ≤ length p
    → frame_header checked h p ≢ partial
    → frame_header checked h (p ++ b) ≡ extend (frame_header checked h p) b
unfolding frame_header
frame_header-append checked h p b fits ne =
    elim (Bool-cases (ltb special_length_threshold (be_uint32 (slice h 0 4)))) [
      | inl special ↦ rw (special, drop-append header_size p b fits)
      | inr plain ↦
          rw plain (elim (Bool-cases (ltb (length p) (header_size + (parse_header h).length))) [
            | inl short ↦ absurd (ne (rw plain (frame_body_partial _ _ _ (ltb→lt _ _ short))))
            | inr complete ↦ frame_body-append checked _ p b (ltb-false→le _ _ complete)
          ])
    ]

-- A frame that is complete, or broken, stays so whatever arrives behind it.
pub frame-append :
    (checked : Bool) (p b : Bytes)
    → frame checked p ≢ partial
    → frame checked (p ++ b) ≡ extend (frame checked p) b
unfolding frame
frame-append checked p b ne = elim (Bool-cases (ltb (length p) header_size)) [
  | inl short ↦ absurd (ne (rw short))
  | inr enough ↦
      let fits : header_size ≤ length p = ltb-false→le _ _ enough in
      rw
        (
          take-append header_size p b fits,
          enough,
          ltb-false (length (p ++ b)) header_size (omega (arith, length-append p b)),
        )
        (frame_header-append checked _ p b fits (λ e. ne (rw (enough, e))))
]

-- Where a frame ends: its raw bytes are the first `n` of the input.
abbrev Ends : Bytes → ℕ → Message → Bytes → Type 0
Ends p n m rest = (header_size ≤ n) × (n ≤ length p) × (m.raw ≡ take n p) × (rest ≡ drop n p)

frame_body-Ends :
    (checked : Bool) (hdr : Header) (p : Bytes) {m : Message} {rest : Bytes}
    → frame_body checked hdr p ≡ whole m rest
    → Ends p (header_size + hdr.length) m rest
unfolding frame_body
frame_body-Ends checked hdr p h = ground arith

frame_header-Ends :
    (checked : Bool) (p : Bytes) {m : Message} {rest : Bytes}
    → header_size ≤ length p
    → frame_header checked (take header_size p) p ≡ whole m rest
    → (n : ℕ) × Ends p n m rest
unfolding frame_header special_message
frame_header-Ends checked p fits h =
    elim (Bool-cases (ltb special_length_threshold (be_uint32 (slice (take header_size p) 0 4)))) [
      | inl special ↦ (header_size, ground arith)
      | inr plain ↦ (
        header_size + (parse_header (take header_size p)).length,
        frame_body-Ends checked _ p (rw plain at h),
      )
    ]

frame-Ends :
    (checked : Bool) (p : Bytes) {m : Message} {rest : Bytes}
    → frame checked p ≡ whole m rest
    → (n : ℕ) × Ends p n m rest
unfolding frame
frame-Ends checked p h = elim (Bool-cases (ltb (length p) header_size)) [
  | inl short ↦ cc (rw short at h)
  | inr enough ↦ frame_header-Ends checked p (ltb-false→le _ _ enough) (rw enough at h)
]

-- A frame takes twelve bytes at least, and its bytes with the rest are the input.
pub frame_takes :
    (checked : Bool) (p : Bytes) {m : Message} {rest : Bytes}
    → frame checked p ≡ whole m rest
    → (m.raw ++ rest ≡ p) × (header_size ≤ length m.raw) × (drop (length m.raw) p ≡ rest)
frame_takes checked p h =
    let (n, ends) = frame-Ends checked p h in
    let (low, high, raw, tail) = ends in
    (
      rw (raw, tail) (take-append-drop n p),
      omega (arith, length-take n p, ap length raw),
      ap (λ k. drop k p) (omega (arith, length-take n p, ap length raw)) ∙ sym tail,
    )
