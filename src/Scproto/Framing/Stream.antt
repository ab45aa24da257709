-- ===== src/Scproto/Framing/Stream.antt =====
-- The loop around `Next` that every reader of a stream runs (`for { msg, ok, err := s.Next() … }`,
-- as in sc-capture/internal/decode/pipeline.go), and what it promises for any chunking.
pub mod Laws
pub mod Agrees
pub mod Chunks
use star_konflict.Base.{
  ℕ, zero, suc, ◌+◌, ◌≤◌, ◌<◌, Bool, true, false, List, [], ◌∷◌, ◌++◌, ◌≡◌, ◌≢◌, refl, sym, ap, ◌∙◌,
  Bytes, length, drop, arith, Bool-cases, inl, inr, length-append, append_assoc, append-nil,
  drop-add,
}
use star_konflict.Scproto.Checksum.{header_size}
use star_konflict.Scproto.Framing.{Message, Scanner, Outcome, got, more, err_desync, feed, next}
use star_konflict.Scproto.Framing.Spec.{
  Frame, whole, partial, broken, frame, extend, frame-append, frame_takes,
}
use star_konflict.Scproto.Framing.Next.{
  pending, IsValid, after, next-frame, next_stopped, feed-pending,
}

-- Why the loop ends: no complete message, a lost framing, or (never, see `drain_ends`) no fuel.
pub data Ending : Type 0 where
  waiting lost no_fuel : Ending

pub record Drained : Type 0 where
  pub scanner : Scanner
  pub messages : List Message
  pub ending : Ending

abbrev pub with_message : Message → Drained → Drained
with_message m d = record d { messages = m ∷ d.messages }

unfoldable pub drain_fuel : ℕ → Scanner → Drained
drain_fuel zero s = record { scanner = s; messages = []; ending = no_fuel }
drain_fuel (suc fuel) s =
    let (t, o) = next s in
    elim o [
      | got m ↦ with_message m (drain_fuel fuel t)
      | more ↦ record { scanner = t; messages = []; ending = waiting }
      | err_desync ↦ record { scanner = t; messages = []; ending = lost }
    ]

-- Each message takes twelve bytes at least.
unfoldable pub drain : Scanner → Drained
drain s = drain_fuel (suc (length s.buf)) s

-- The same loop over a byte string.
pub record Stream : Type 0 where
  pub parsed : List Message
  pub rest : Bytes
  pub stop : Ending

abbrev with_parsed : Message → Stream → Stream
with_parsed m d = record d { parsed = m ∷ d.parsed }

pub stream : ℕ → Bool → Bytes → Stream
stream zero checked p = record { parsed = []; rest = p; stop = no_fuel }
stream (suc fuel) checked p = elim (frame checked p) [
  | whole m q ↦ with_parsed m (stream fuel checked q)
  | partial ↦ record { parsed = []; rest = p; stop = waiting }
  | broken ↦ record { parsed = []; rest = p; stop = lost }
]
