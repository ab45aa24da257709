-- ===== src/Decode/Pipeline/Keys.antt =====
-- `streamKey` of sc-capture/internal/decode/pipeline.go, the key of the map of streams.
use star_konflict.Base.{
  Bool, true, false, ◌&&◌, Bytes, same, same_iff, same_refl, ◌≡◌, ◌↔◌, refl, arith,
}
use star_konflict.Base.Map.{Eq}
use star_konflict.Flow.{Direction, client_to_server, server_to_client}

pub record StreamKey : Type 0 where
  pub conn : Bytes
  pub dir : Direction

unfoldable pub same_direction : Direction → Direction → Bool
same_direction client_to_server client_to_server = true
same_direction server_to_client server_to_client = true
same_direction _ _ = false

same_direction_iff : (a b : Direction) → (same_direction a b ≡ true) ↔ (a ≡ b)
unfolding same_direction
same_direction_iff client_to_server client_to_server = (λ _. refl, λ _. refl)
same_direction_iff server_to_client server_to_client = (λ _. refl, λ _. refl)
same_direction_iff client_to_server server_to_client = (λ e. cc, λ e. cc)
same_direction_iff server_to_client client_to_server = (λ e. cc, λ e. cc)

pub same_stream_iff :
    (a b : StreamKey) → (same a.conn b.conn && same_direction a.dir b.dir ≡ true) ↔ (a ≡ b)
same_stream_iff a b = (
  λ h. ground (arith, same_iff a.conn b.conn, same_direction_iff a.dir b.dir),
  λ e. rw e (rw (same_refl b.conn, (same_direction_iff b.dir b.dir).1 refl)),
)

instance abbrev pub stream_key_eq : Eq StreamKey
stream_key_eq = record {
  beq = λ a b. same a.conn b.conn && same_direction a.dir b.dir;
  beq_iff = same_stream_iff;
}
