-- ===== src/Tests/Listing.antt =====
-- The list and the replay of dead letters at a concrete table.
use aether_relay.Prelude.{take, String, ◌≡◌, refl, ◌⊎◌, Bool, some, List, [], ◌∷◌}
use aether_relay.Error.{database, err, ok}
use aether_relay.Models.{received, as_str, DeadLetterRow}
use aether_relay.Store.{World, store}
use aether_relay.Store.Runs.{Runs}
use aether_relay.Store.Tables.{select_where, count_where, insert_desc, order_by_desc}
use aether_relay.Store.Tables.Order.{IsDescending}
use aether_relay.Crypto.Headers.{get}
use aether_relay.Api.Auth.{verify_api_key}
use aether_relay.Api.Dlq.{list_dlq, replay}
use aether_relay.Api.Replay.{cleared_db, StopsAt, replay_stages}
use aether_relay.Api.Listing.{list_dlq_lem}
use aether_relay.Tests.Fixture.{db, failing, faulty, world_of}
use aether_relay.Tests.Requests.{headers}
use aether_relay.Tests.Handlers.{cfg, dead}
use aether_relay.Store.Schema.{event_is, dead_letter_is, update_status, delete_dead_letter}

abbrev newer : DeadLetterRow
newer = record dead { id = "dl-2"; event_id = "ev-2"; created_at = 60 }

abbrev two_dead : World
two_dead = world_of (record db { dead_letters = dead ∷ newer ∷ [] })

abbrev listed : World
listed = (list_dlq failing cfg headers two_dead).1

lists : Runs (list_dlq failing cfg headers) two_dead (newer ∷ dead ∷ []) listed
unfolding store list_dlq verify_api_key get order_by_desc insert_desc
lists = refl

list_dlq_lem_example :
    (ordered : List DeadLetterRow) × (newer ∷ dead ∷ [] ≡ take 100 ordered)
    × IsDescending (λ r. r.created_at) ordered
    × ((q : DeadLetterRow → Bool) → count_where q ordered ≡ count_where q (dead ∷ newer ∷ []))
    × (listed.db ≡ two_dead.db)
list_dlq_lem_example = list_dlq_lem failing cfg headers two_dead listed (newer ∷ dead ∷ []) lists

abbrev one_dead : World
one_dead = world_of (record db { dead_letters = dead ∷ [] })

found_dead : select_where (dead_letter_is "dl-1") one_dead.db.dead_letters ≡ some dead
unfolding select_where
found_dead = refl

-- The third database call after the first fails: the UPDATE stays.
replay_cut_short :
    ((replay faulty cfg "dl-1" one_dead).0 ≡ err (database "disk I/O error"))
    × ((replay faulty cfg "dl-1" one_dead).1.db
        ≡ update_status (event_is "ev-1") (as_str received) one_dead.db)
unfolding replay store select_where
replay_cut_short = (refl, refl)

replay_stages_example :
    ((replay faulty cfg "dl-1" one_dead).0 ≡ ok "ev-1")
      × ((replay faulty cfg "dl-1" one_dead).1.db
          ≡ delete_dead_letter "dl-1" (cleared_db faulty cfg "dl-1" one_dead dead))
    ⊎ (e : String) × ((replay faulty cfg "dl-1" one_dead).0 ≡ err (database e))
      × StopsAt faulty cfg "dl-1" one_dead dead e (replay faulty cfg "dl-1" one_dead).1.db
replay_stages_example = replay_stages faulty cfg "dl-1" one_dead dead found_dead
