-- ===== src/Tests/Errors.antt =====
-- Errors and statuses at concrete values.
use aether_relay.Prelude.{◌≡◌, refl, ◌↔◌, some, arith}
use aether_relay.Error.{database, generic_internal, into_response}
use aether_relay.Error.Laws.{into_response-hides_detail}
use aether_relay.Models.{processing, as_str, from_str}
use aether_relay.Models.Laws.{from_str_iff}

database_status : (into_response (database "no such table")).status ≡ 500
unfolding into_response
database_status = refl

into_response-hides_detail_example :
    (into_response (database "no such table")).error ≡ generic_internal
into_response-hides_detail_example =
    into_response-hides_detail (database "no such table") (omega (arith, database_status))

from_str_iff_example :
    (from_str "PROCESSING" ≡ some processing) ↔ ("PROCESSING" ≡ as_str processing)
from_str_iff_example = from_str_iff "PROCESSING" processing
