-- ===== src/Tests/Fixture.antt =====
-- A small relay: one endpoint with two waiting events, and a downstream that answers 503.
use aether_relay.Prelude.{◌==◌, if◌then◌else◌, ◌+◌, ◌*◌, ◌+++◌, none, some, [], ◌∷◌}
use aether_relay.Prelude.Text.{decimal}
use aether_relay.Models.{EndpointRecord, EventRow}
use aether_relay.Store.{Reply, response, Outside, World}
use aether_relay.Store.Rows.{Db}
use aether_relay.Idempotency.{new_event}

abbrev pub endpoint : EndpointRecord
endpoint = record {
  id = "ep";
  name = "shop";
  provider = "github";
  secret = "s3cret";
  target_url = "https://shop.example/hook";
  created_at = 1;
}

abbrev pub first_event : EventRow
first_event = new_event "ev-1" "ep" "key-1" (123 ∷ 125 ∷ []) "{}" 10

abbrev pub second_event : EventRow
second_event = new_event "ev-2" "ep" "key-2" (91 ∷ 93 ∷ []) "{}" 10

abbrev pub db : Db
db = record {
  endpoints = endpoint ∷ [];
  events = second_event ∷ first_event ∷ [];
  attempts = [];
  dead_letters = [];
}

-- `uuid` tells its readings apart, as `Uuid::now_v7` does.
abbrev pub outside : Reply → Outside
outside reply = record {
  fault = λ _. none;
  time = λ n. 100 + n;
  instant = λ n. 1_000_000_000 * n;
  uuid = λ n. "id-" +++ decimal n;
  post = λ _ _ _. reply;
}

abbrev pub failing : Outside
failing = outside (response 503)

-- The fourth database call fails.
abbrev pub faulty : Outside
faulty = record failing { fault = λ n. if n == 3 then some "disk I/O error" else none }

abbrev pub world_of : Db → World
world_of d = record {
  db = d;
  breakers = λ _. none;
  metrics = [];
  sent = [];
  calls = 0;
  times = 0;
  instants = 0;
  uuids = 0;
}

abbrev pub start : World
start = world_of db
