-- ===== src/Scproto/Checksum/Laws.antt =====
-- The checksum as one hash over header and body together, and its range.
use star_konflict.Base.{ℕ, ◌<◌, bit_xor, ◌++◌, ◌≡◌, refl, Bytes, arith, u16_mod}
use star_konflict.Scproto.Checksum.{
  mix, finish, checksum, hashed_header, header_size, checksum_seed,
}

-- The checksum of a header and a body, hashed one after the other, is that of the two joined: no
-- tail is mixed in between them.
pub checksum_joined :
    (body_len seq echo_seq cmd_type : ℕ) (body : Bytes)
    → checksum body_len seq echo_seq cmd_type body
      ≡ finish (
          mix
            (bit_xor header_size checksum_seed)
            (hashed_header body_len seq echo_seq cmd_type ++ body))
unfolding checksum
checksum_joined body_len seq echo_seq cmd_type body = refl

pub checksum-lt :
    (body_len seq echo_seq cmd_type : ℕ) (body : Bytes)
    → checksum body_len seq echo_seq cmd_type body < u16_mod
unfolding checksum finish
checksum-lt body_len seq echo_seq cmd_type body = omega arith
