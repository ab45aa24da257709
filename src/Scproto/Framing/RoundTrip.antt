-- ===== src/Scproto/Framing/RoundTrip.antt =====
-- `Build` against `Next`: what is written is read back, whatever follows it.
use star_konflict.Base.{
  ℕ, ◌+◌, ◌*◌, ◌/◌, ◌%◌, ◌≤◌, ◌<◌, Bool, true, false, not, ◌&&◌, ◌++◌, ◌≡◌, refl, sym, ap, ◌∙◌,
  Bytes, ltb-false, if◌then◌else◌, length, take, drop, arith, length-append, drop-add, take-length,
  drop-length, u16_mod, u32_mod, ==_iff,
}
use star_konflict.Scproto.Checksum.{header_size, checksum}
use star_konflict.Scproto.Checksum.Laws.{checksum-lt}
use star_konflict.Scproto.Framing.{
  Header, Message, Scanner, got, slice, be_uint16, be_uint32, put_be_uint16, put_be_uint32,
  checksum_valid, max_body_length, special_length_threshold, parse_header, build, next,
}
use star_konflict.Scproto.Framing.Spec.{whole, broken, frame, frame_header, frame_body, cut}
use star_konflict.Scproto.Framing.Next.{pending, IsValid, after, next-frame}

module _ (t seq echo_seq : ℕ) (body : Bytes) where
  abbrev pub sum_of : ℕ
  sum_of = checksum (length body % u32_mod) seq echo_seq t body

  -- The header that `Build` writes for a body.
  abbrev pub built_header : Header
  built_header = record {
    length = length body;
    seq = seq;
    echo_seq = echo_seq;
    type = t;
    checksum = checksum (length body) seq echo_seq t body;
    special = false;
  }

  abbrev pub built : Message
  built = record { header = built_header; body = body; raw = build t seq echo_seq body }

  length-build : length (build t seq echo_seq body) ≡ header_size + length body
  unfolding build put_be_uint16 put_be_uint32
  length-build = omega arith

be16 : (v : ℕ) → v < u16_mod → v / 256 % 256 * 256 + v % 256 ≡ v
be16 v h = omega arith

be32 :
    (v : ℕ)
    → v < u32_mod
    → v / 16777216 % 256 * 16777216 + v / 65536 % 256 * 65536 + v / 256 % 256 * 256 + v % 256 ≡ v
be32 v h = omega arith

-- The fields of a message that `Build` can write: three uint16s and a body that is no sentinel.
pub record IsBuildable (t seq echo_seq : ℕ) (body : Bytes) : Type 0 where
  pub type_fits : t < u16_mod
  pub seq_fits : seq < u16_mod
  pub echo_fits : echo_seq < u16_mod
  pub body_fits : length body ≤ max_body_length

module _ (t seq echo_seq : ℕ) (body rest : Bytes) (h : IsBuildable t seq echo_seq body) where
  length_field :
      be_uint32 (slice (take header_size (build t seq echo_seq body ++ rest)) 0 4) ≡ length body
  unfolding build put_be_uint16 put_be_uint32 be_uint32
  length_field = be32 (length body % u32_mod) (omega arith) ∙ omega (arith, h.body_fits)

  small : length body % u32_mod ≡ length body
  small = omega (arith, h.body_fits)

  sum_field :
      be_uint16 (put_be_uint16 (sum_of t seq echo_seq body))
      ≡ checksum (length body) seq echo_seq t body
  unfolding be_uint16 put_be_uint16
  sum_field =
      be16 (sum_of t seq echo_seq body) (checksum-lt (length body % u32_mod) seq echo_seq t body)
      ∙ ap (λ k. checksum k seq echo_seq t body) small

  header_field :
      parse_header (take header_size (build t seq echo_seq body ++ rest))
      ≡ built_header t seq echo_seq body
  unfolding build put_be_uint16 put_be_uint32 be_uint32 be_uint16 parse_header
  header_field = λ i. record {
    length = length_field i;
    seq = be16 seq h.seq_fits i;
    echo_seq = be16 echo_seq h.echo_fits i;
    type = be16 t h.type_fits i;
    checksum = sum_field i;
    special = false;
  }

  body-build : drop header_size (build t seq echo_seq body) ≡ body
  unfolding build put_be_uint16 put_be_uint32
  body-build = refl

  raw_field :
      take (header_size + length body) (build t seq echo_seq body ++ rest)
      ≡ build t seq echo_seq body
  raw_field =
      ap (λ k. take k (build t seq echo_seq body ++ rest)) (sym (length-build t seq echo_seq body))
      ∙ take-length (build t seq echo_seq body) rest

  rest_field : drop (header_size + length body) (build t seq echo_seq body ++ rest) ≡ rest
  rest_field =
      ap (λ k. drop k (build t seq echo_seq body ++ rest)) (sym (length-build t seq echo_seq body))
      ∙ drop-length (build t seq echo_seq body) rest

  cut-build :
      cut
        (header_size + length body)
        (built_header t seq echo_seq body)
        (build t seq echo_seq body ++ rest)
      ≡ built t seq echo_seq body
  unfolding cut
  cut-build = λ i. record {
    header = built_header t seq echo_seq body;
    body = (ap (drop header_size) raw_field ∙ body-build) i;
    raw = raw_field i;
  }

  built_valid : checksum_valid (built t seq echo_seq body) ≡ true
  unfolding checksum_valid
  built_valid = (==_iff _ _).1 refl

  enough : header_size + length body ≤ length (build t seq echo_seq body ++ rest)
  enough =
      omega
        (arith, length-append (build t seq echo_seq body) rest, length-build t seq echo_seq body)

  -- The first frame of what `Build` wrote is the message that it was given.
  pub frame-build :
      (checked : Bool)
      → frame checked (build t seq echo_seq body ++ rest) ≡ whole (built t seq echo_seq body) rest
  unfolding frame frame_header frame_body
  frame-build checked =
      let input = build t seq echo_seq body ++ rest in
      let plain = be_uint32 (slice (take header_size input) 0 4) in
      rw
        (
          ltb-false (length input) header_size (omega (arith, enough)),
          ltb-false special_length_threshold plain (omega (arith, length_field, h.body_fits)),
          header_field,
          ltb-false (length input) (header_size + length body) enough,
        )
        (rw (cut-build, built_valid, rest_field) (settled checked))
    where
      settled :
          (checked : Bool)
          → (if checked && not true then broken else whole (built t seq echo_seq body) rest)
            ≡ whole (built t seq echo_seq body) rest
      settled true = refl
      settled false = refl

  -- On a valid scanner that is not stopped and whose pending bytes begin with what `Build` made
  -- of a body of at most `MaxBodyLength` bytes, 16-bit sequence numbers and a 16-bit type, `Next`
  -- returns that message, with all its header fields and its wire bytes, leaves what follows
  -- pending, and does not stop.
  pub next-build :
      (s : Scanner)
      → IsValid s
      → s.desync ≡ false
      → pending s ≡ build t seq echo_seq body ++ rest
      → ((next s).1 ≡ got (built t seq echo_seq body))
        × (pending (next s).0 ≡ rest)
        × ((next s).0.desync ≡ false)
  next-build s v running fed =
      let step =
        next-frame s running
        ∙ ap (λ p. after s (frame s.checked p)) fed
        ∙ ap (after s) (frame-build s.checked) in
      let consumed : drop (length (build t seq echo_seq body)) (pending s) ≡ rest =
        ap (drop (length (build t seq echo_seq body))) fed
        ∙ drop-length (build t seq echo_seq body) rest in
      rw step (refl, drop-add s.off (length (build t seq echo_seq body)) s.buf ∙ consumed, running)
