-- ===== src/Tests/Flows.antt =====
-- The flow table, keys and the universe of elements.
use star_konflict.Base.{true, false, [], ◌∷◌, Bytes, some, ◌≡◌, ◌⊎◌, refl}
use star_konflict.Base.Map.{lookup}
use star_konflict.Flow.{
  Observed, dedicated, handoff, client_to_server, new_table, observe, announce_dedicated, ends,
}
use star_konflict.Flow.Keys.{Key, key_eq, new_key}
use star_konflict.Flow.Invariant.{IsValid, new_table-IsValid, observe-IsValid, conn_id_unique}
use star_konflict.Flow.Classify.{observe-stored, announce-observe, announce-lookup}
use star_konflict.Scproto.Tables.{Element, kind_message_type}

abbrev client : Bytes
client = b'1' ∷ []

abbrev server : Bytes
server = b'2' ∷ []

abbrev seen : Observed
seen = observe new_table client 50000 server 3802 false 5

abbrev seen_key : Key
seen_key = (new_key client 50000 server 3802 false).0

seen-IsValid : IsValid seen.table
seen-IsValid = observe-IsValid new_table client 50000 server 3802 false 5 new_table-IsValid

observe-IsValid_example : IsValid (observe new_table client 50000 server 3802 false 5).table
observe-IsValid_example =
    observe-IsValid new_table client 50000 server 3802 false 5 new_table-IsValid

seen_stored : lookup seen_key seen.table.by_key ≡ some seen.conn
seen_stored = observe-stored new_table client 50000 server 3802 false 5

conn_id_unique_example : seen_key ≡ seen_key
conn_id_unique_example =
    conn_id_unique seen.table seen_key seen_key seen-IsValid seen_stored seen_stored refl

announce-observe_example :
    let found =
      observe (announce_dedicated new_table server 7000 9) client 50000 server 7000 true 5 in
    (found.conn.service ≡ dedicated)
    × (found.conn.service_evidence ≡ handoff)
    × (found.conn.endpoints ≡ ends client 50000 server 7000)
    × (found.dir ≡ client_to_server)
unfolding new_table lookup
announce-observe_example = announce-observe new_table server 7000 9 client 50000 true 5 refl

announce-lookup_example :
    ((seen.conn.endpoints.server_ip ≡ server)
      × (seen.conn.endpoints.server_port ≡ 3802)
      × (lookup seen_key (announce_dedicated seen.table server 3802 9).by_key
          ≡ some (record seen.conn { service = dedicated; service_evidence = handoff })))
    ⊎ (((seen.conn.endpoints.server_ip ≡ server) × (seen.conn.endpoints.server_port ≡ 3802) → ⊥)
        × (lookup seen_key (announce_dedicated seen.table server 3802 9).by_key ≡ some seen.conn))
announce-lookup_example = announce-lookup seen.table server 3802 9 seen_key seen_stored

abbrev auth : Element
auth = record { kind = kind_message_type; id = 13; name = [] }
