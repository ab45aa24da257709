-- ===== src/Flow/Classify.antt =====
-- What `Observe`, `AnnounceDedicated` and `MarkDesync` promise of the connection of a flow.
use star_konflict.Base.{
  ℕ, Bool, true, false, Bytes, same_iff, same_refl, ==_iff, ◌≡◌, ◌≢◌, refl, sym, ap, ◌∙◌, ◌⊎◌,
  arith, if_true, some, none, Option,
}
use mathlib.Core.Path.{subst}
use star_konflict.Base.Map.{lookup, bytes_eq, Every-lookup, lookup-insert_self}
use star_konflict.Flow.Keys.{Key, key_eq, new_key, new_key_symm}
use star_konflict.Flow.Ends.{ends, new_key-ends, direction-opposite, opposite}
use star_konflict.Flow.Invariant.{Fits, IsValid, observe-IsValid}
use star_konflict.Flow.Changes.{changed, lookup-reclassify_all}
use star_konflict.Flow.{
  Table, Connection, Observed, client_to_server, dedicated, handoff, in_order, desynced, addr_key,
  classify, Classified, fresh, direction, observe_found, observe, announce_dedicated, reclassify,
  mark_connection, mark_found, mark_desync,
}

module _ (t : Table) (src : Bytes) (sp : ℕ) (dst : Bytes) (dp : ℕ) (udp : Bool) (now : ℕ) where
  -- After a packet the flow's entry is the connection that was returned.
  pub observe-stored :
      lookup (new_key src sp dst dp udp).0 (observe t src sp dst dp udp now).table.by_key
      ≡ some (observe t src sp dst dp udp now).conn
  unfolding observe
  observe-stored = by_found (lookup (new_key src sp dst dp udp).0 t.by_key)
    where
      by_found :
          (o : Option Connection)
          → lookup
              (new_key src sp dst dp udp).0
              (observe_found t (new_key src sp dst dp udp).0 o src sp dst dp udp now).table.by_key
            ≡ some (observe_found t (new_key src sp dst dp udp).0 o src sp dst dp udp now).conn
      by_found none = unfold observe_found in lookup-insert_self _ _ t.by_key
      by_found (some c) = unfold observe_found in lookup-insert_self _ _ t.by_key

  -- The direction follows from the stored ends.
  observe-direction :
      (observe t src sp dst dp udp now).dir
      ≡ direction (observe t src sp dst dp udp now).conn.endpoints dst dp
  unfolding observe observe_found
  observe-direction = ground arith

observe_known :
    (t : Table) (src : Bytes) (sp : ℕ) (dst : Bytes) (dp : ℕ) (udp : Bool) (now : ℕ)
    {c : Connection}
    → lookup (new_key src sp dst dp udp).0 t.by_key ≡ some c
    → observe t src sp dst dp udp now
      ≡ observe_found t (new_key src sp dst dp udp).0 (some c) src sp dst dp udp now
unfolding observe
observe_known t src sp dst dp udp now f =
    ap (λ o. observe_found t (new_key src sp dst dp udp).0 o src sp dst dp udp now) f

-- In a valid table, a packet that travels back after another belongs to the same connection,
-- makes no new one, and has the opposite direction, unless both ends are one.
pub observe_back :
    (t : Table) (src : Bytes) (sp : ℕ) (dst : Bytes) (dp : ℕ) (udp : Bool) (now later : ℕ)
    → IsValid t
    → (src ≡ dst → sp ≢ dp)
    → let there = observe t src sp dst dp udp now in
      let back = observe there.table dst dp src sp udp later in
      (back.conn.conn_id ≡ there.conn.conn_id)
      × (back.table.next_id ≡ there.table.next_id)
      × (back.dir ≡ opposite there.dir)
observe_back t src sp dst dp udp now later v ne =
    let there = observe t src sp dst dp udp now in
    let same_key = new_key_symm src sp dst dp udp in
    let stored =
      ap (λ k. lookup k there.table.by_key) (sym same_key)
      ∙ observe-stored t src sp dst dp udp now in
    let fit =
      Every-lookup Fits (new_key src sp dst dp udp).0 there.table.by_key
        (observe-stored t src sp dst dp udp now) (observe-IsValid t src sp dst dp udp now v).fits in
    let opposed =
      direction-opposite there.conn.endpoints src sp dst dp
        (new_key-ends src sp dst dp udp there.conn.endpoints fit.own_ends) ne in
    subst
      (λ (back : Observed).
        (back.conn.conn_id ≡ there.conn.conn_id)
        × (back.table.next_id ≡ there.table.next_id)
        × (back.dir ≡ opposite there.dir))
      (sym (observe_known there.table dst dp src sp udp later stored))
      (unfold observe_found in
        (refl, refl, opposed ∙ ap opposite (sym (observe-direction t src sp dst dp udp now))))

observe_new :
    (t : Table) (src : Bytes) (sp : ℕ) (dst : Bytes) (dp : ℕ) (udp : Bool) (now : ℕ)
    → lookup (new_key src sp dst dp udp).0 t.by_key ≡ none
    → observe t src sp dst dp udp now
      ≡ observe_found t (new_key src sp dst dp udp).0 none src sp dst dp udp now
unfolding observe
observe_new t src sp dst dp udp now f =
    ap (λ o. observe_found t (new_key src sp dst dp udp).0 o src sp dst dp udp now) f

abbrev by_handoff : Bytes → ℕ → Bytes → ℕ → Classified
by_handoff src sp ip p = record {
  endpoints = ends src sp ip p;
  service = dedicated;
  evidence = handoff;
}

classify_announced :
    (t : Table) (ip : Bytes) (p session_id : ℕ) (src : Bytes) (sp : ℕ)
    → classify (announce_dedicated t ip p session_id) src sp ip p ≡ by_handoff src sp ip p
unfolding classify announce_dedicated
classify_announced t ip p session_id src sp =
    if_true _ _ (ap found (lookup-insert_self (addr_key ip p) session_id t.dedicated_at))
  where
    found : Option ℕ → Bool
    found o = elim o [ some _ ↦ true | none ↦ false ]

-- The first packet to an endpoint that a handoff announced is classified by the handoff, whatever
-- its ports say, and travels to the server.
pub announce-observe :
    (t : Table) (ip : Bytes) (p session_id : ℕ) (src : Bytes) (sp : ℕ) (udp : Bool) (now : ℕ)
    → lookup (new_key src sp ip p udp).0 t.by_key ≡ none
    → let seen = observe (announce_dedicated t ip p session_id) src sp ip p udp now in
      (seen.conn.service ≡ dedicated)
      × (seen.conn.service_evidence ≡ handoff)
      × (seen.conn.endpoints ≡ ends src sp ip p)
      × (seen.dir ≡ client_to_server)
announce-observe t ip p session_id src sp udp now f =
    let t' = announce_dedicated t ip p session_id in
    let k = (new_key src sp ip p udp).0 in
    let still : lookup k t'.by_key ≡ none =
      unfold announce_dedicated in
      lookup-reclassify_all ip p k t.by_key ∙ ap (changed (reclassify ip p)) f in
    let c = classify_announced t ip p session_id src sp in
    rw (observe_new t' src sp ip p udp now still) (
      unfold observe_found fresh in
      (
        ap (λ (x : Classified). x.service) c,
        ap (λ (x : Classified). x.evidence) c,
        ap (λ (x : Classified). x.endpoints) c,
        ap (λ (x : Classified). direction x.endpoints ip p) c ∙ to_server src sp ip p,
      ))
  where
    to_server :
        (src : Bytes) (sp : ℕ) (ip : Bytes) (p : ℕ)
        → direction (ends src sp ip p) ip p ≡ client_to_server
    to_server src sp ip p = unfold direction in rw (same_refl ip, (==_iff p p).1 refl)

-- Announcing an endpoint changes a known flow exactly if that is its server's end, and then only
-- its service and the evidence for it.
pub announce-lookup :
    (t : Table) (ip : Bytes) (p session_id : ℕ) (k : Key) {c : Connection}
    → lookup k t.by_key ≡ some c
    → ((c.endpoints.server_ip ≡ ip)
        × (c.endpoints.server_port ≡ p)
        × (lookup k (announce_dedicated t ip p session_id).by_key
            ≡ some (record c { service = dedicated; service_evidence = handoff })))
      ⊎ (((c.endpoints.server_ip ≡ ip) × (c.endpoints.server_port ≡ p) → ⊥)
          × (lookup k (announce_dedicated t ip p session_id).by_key ≡ some c))
unfolding announce_dedicated reclassify
announce-lookup t ip p session_id k {c} f =
    let now = lookup-reclassify_all ip p k t.by_key ∙ ap (changed (reclassify ip p)) f in
    ground (arith, same_iff c.endpoints.server_ip ip, now)

mark_connection_first :
    (c : Connection) (first later : ℕ)
    → mark_connection (mark_connection c first) later ≡ mark_connection c first
unfolding mark_connection
mark_connection_first c first later = ground arith

mark_desync-lookup :
    (t : Table) (k : Key) (frame : ℕ)
    → lookup k (mark_desync t k frame).by_key
      ≡ changed (λ c. mark_connection c frame) (lookup k t.by_key)
unfolding mark_desync
mark_desync-lookup t k frame = by_found (lookup k t.by_key) refl
  where
    by_found :
        (o : Option Connection)
        → lookup k t.by_key ≡ o
        → lookup k (mark_found t k frame o).by_key ≡ changed (λ c. mark_connection c frame) o
    by_found none f = unfold mark_found in f
    by_found (some c) f = unfold mark_found in lookup-insert_self k _ t.by_key

-- On a known flow whose framing was not lost, the first loss is the one that is kept, with its
-- frame, whatever is marked later.
pub mark_desync_first :
    (t : Table) (k : Key) (first later : ℕ) {c : Connection}
    → lookup k t.by_key ≡ some c
    → c.reassembly_state ≡ in_order
    → lookup k (mark_desync (mark_desync t k first) k later).by_key
      ≡ some (record c { reassembly_state = desynced; desync_at_frame = some first })
mark_desync_first t k first later {c} f fine =
    mark_desync-lookup (mark_desync t k first) k later
    ∙ ap (changed (λ d. mark_connection d later)) (mark_desync-lookup t k first)
    ∙ ap (λ o. changed (λ d. mark_connection d later) (changed (λ d. mark_connection d first) o)) f
    ∙ ap some (mark_connection_first c first later ∙ unfold mark_connection in ground arith)
