-- ===== src/Scproto/Framing.antt =====
-- sc-capture/pkg/scproto/framing.go. A slice is a list of bytes, taken by value: a message's
-- `body` and `raw` are read before the next call of the scanner, which may reuse its buffer.
pub mod Spec
pub mod Next
pub mod Stream
pub mod RoundTrip
use star_konflict.Base.{
  ℕ, zero, suc, ◌+◌, ◌-◌, ◌*◌, ◌/◌, ◌%◌, ◌^◌, Bool, true, false, not, ◌&&◌, ◌||◌, List, [], ◌∷◌,
  ◌++◌, Bytes, ltb, ◌==◌, if◌then◌else◌, length, take, drop, Option, none, some, u32_mod,
}
use star_konflict.Scproto.Checksum.{header_size, checksum}

abbrev pub special_length_threshold : ℕ
special_length_threshold = 0xfffffc

abbrev pub max_body_length : ℕ
max_body_length = special_length_threshold

pub record Header : Type 0 where
  pub length : ℕ
  pub seq : ℕ
  pub echo_seq : ℕ
  pub type : ℕ
  pub checksum : ℕ
  pub special : Bool

pub record Message : Type 0 where
  pub header : Header
  pub body : Bytes
  pub raw : Bytes

-- `bs[lo:hi]`, for bounds inside the slice.
abbrev pub slice : Bytes → ℕ → ℕ → Bytes
slice bs lo hi = take (hi - lo) (drop lo bs)

-- encoding/binary's fixed width readers and writers; the readers are given slices that are long
-- enough, and the last clauses stand for Go's panic on shorter ones.
unfoldable pub be_uint16 : Bytes → ℕ
be_uint16 (a ∷ b ∷ _) = a * 256 + b
be_uint16 _ = 0

unfoldable pub le_uint16 : Bytes → ℕ
le_uint16 (a ∷ b ∷ _) = b * 256 + a
le_uint16 _ = 0

unfoldable pub be_uint32 : Bytes → ℕ
be_uint32 (a ∷ b ∷ c ∷ d ∷ _) = a * 16777216 + b * 65536 + c * 256 + d
be_uint32 _ = 0

unfoldable pub put_be_uint16 : ℕ → Bytes
put_be_uint16 v = v / 256 % 256 ∷ v % 256 ∷ []

unfoldable pub put_be_uint32 : ℕ → Bytes
put_be_uint32 v = v / 16777216 % 256 ∷ v / 65536 % 256 ∷ v / 256 % 256 ∷ v % 256 ∷ []

unfoldable pub checksum_valid : Message → Bool
checksum_valid m =
    if m.header.special
    then true
    else checksum m.header.length m.header.seq m.header.echo_seq m.header.type m.body
      == m.header.checksum

abbrev pub cscmd_async_req : ℕ
cscmd_async_req = 13

abbrev pub scmd_notification : ℕ
scmd_notification = 14

-- `(op, ok)`: `none` where Go returns `0, false`.
unfoldable pub async_request_type : Message → Option ℕ
unfolding be_uint16
async_request_type m =
    if not (m.header.type == cscmd_async_req) || ltb (length m.body) 2
    then none
    else some (be_uint16 (slice m.body 0 2))

unfoldable pub notification_type : Message → Option ℕ
unfolding le_uint16
notification_type m =
    if not (m.header.type == scmd_notification) || ltb (length m.body) 2
    then none
    else some (le_uint16 (slice m.body 0 2))

pub record Scanner : Type 0 where
  pub buf : Bytes
  pub off : ℕ
  pub desync : Bool
  pub checked : Bool

unfoldable pub new_scanner : Scanner
new_scanner = record { buf = []; off = 0; desync = false; checked = true }

abbrev pub compact_threshold : ℕ
compact_threshold = 2 ^ 20

unfoldable pub compact : Scanner → Scanner
compact s =
    if ltb 0 s.off && s.off == length s.buf
    then record s { buf = []; off = 0 }
    else if ltb compact_threshold s.off
    then record s { buf = drop s.off s.buf; off = 0 }
    else s

unfoldable pub feed : Scanner → Bytes → Scanner
feed s b = let c = compact s in record c { buf = c.buf ++ b }

unfoldable pub buffered : Scanner → ℕ
buffered s = length s.buf - s.off

unfoldable pub desynced : Scanner → Bool
desynced s = s.desync

-- What `Next` returns: `(msg, true, nil)`, `(_, false, nil)` or `(_, false, ErrDesync)`.
pub data Outcome : Type 0 where
  got : Message → Outcome
  more : Outcome
  err_desync : Outcome

unfoldable pub special_message : ℕ → Bytes → Message
special_message len raw = record {
  header = record { length = len; seq = 0; echo_seq = 0; type = 0; checksum = 0; special = true };
  body = [];
  raw = raw;
}

unfoldable pub parse_header : Bytes → Header
unfolding be_uint16 be_uint32
parse_header h = record {
  length = be_uint32 (slice h 0 4);
  seq = be_uint16 (slice h 4 6);
  echo_seq = be_uint16 (slice h 6 8);
  type = be_uint16 (slice h 8 10);
  checksum = be_uint16 (slice h 10 12);
  special = false;
}

-- From `if s.Checked && !msg.ChecksumValid()` on.
unfoldable pub accept : Scanner → ℕ → Message → Scanner × Outcome
accept s total msg =
    if s.checked && not (checksum_valid msg)
    then (record s { desync = true }, err_desync)
    else (record s { off = s.off + total }, got msg)

-- From `total := HeaderSize + int(hdr.Length)` on.
unfoldable pub next_body : Scanner → Header → Scanner × Outcome
next_body s hdr =
    let total = header_size + hdr.length in
    let raw = slice s.buf s.off (s.off + total) in
    if ltb (length s.buf - s.off) total
    then (s, more)
    else accept s total (record { header = hdr; body = drop header_size raw; raw = raw })

-- From `hdr.Length = binary.BigEndian.Uint32(h[0:4])` on; `h` is the header's twelve bytes.
unfoldable pub next_header : Scanner → Bytes → Scanner × Outcome
next_header s h =
    let len = be_uint32 (slice h 0 4) in
    if ltb special_length_threshold len
    then (record s { off = s.off + header_size }, got (special_message len h))
    else next_body s (parse_header h)

unfoldable pub next : Scanner → Scanner × Outcome
next s =
    if s.desync
    then (s, err_desync)
    else if ltb (length s.buf - s.off) header_size
    then (s, more)
    else next_header s (slice s.buf s.off (s.off + header_size))

unfoldable pub build : ℕ → ℕ → ℕ → Bytes → Bytes
unfolding put_be_uint16 put_be_uint32
build t seq echo_seq body =
    put_be_uint32 (length body % u32_mod)
    ++ put_be_uint16 seq
    ++ put_be_uint16 echo_seq
    ++ put_be_uint16 t
    ++ put_be_uint16 (checksum (length body % u32_mod) seq echo_seq t body)
    ++ body
