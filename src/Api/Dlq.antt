-- ===== src/Api/Dlq.antt =====
-- src/api/dlq.rs: the list of the dead letters and the replay of one. `dead_letter_queue` rows with the
-- same time are listed in the order of the table.
use aether_relay.Prelude.{take, String, ◌+++◌, List}
use aether_relay.Error.{not_found}
use aether_relay.Config.{AppConfig}
use aether_relay.Models.{received, as_str, DeadLetterRow}
use aether_relay.Store.{Outside, Act, pure, lift, call, query, execute, ◌>>=◌, ◌>>◌}
use aether_relay.Error.Try.{ok_or}
use aether_relay.Store.Tables.{select_where, order_by_desc}
use aether_relay.Store.Schema.{
  event_is, dead_letter_is, update_status, delete_attempts, delete_dead_letter,
}
use aether_relay.Crypto.Headers.{HeaderMap}
use aether_relay.Api.Auth.{verify_api_key}

-- The body of a replay's answer.
pub record Replayed : Type 0 where
  pub status : String
  pub event_id : String

abbrev pub replayed_answer : String → Replayed
replayed_answer event_id = record { status = "replayed"; event_id = event_id }

module _ (o : Outside) (cfg : AppConfig) where
  unfoldable pub list_dlq : HeaderMap → Act (List DeadLetterRow)
  list_dlq headers = do
    lift (verify_api_key headers cfg.auth.api_keys)
    call o
    query o (λ d. take 100 (order_by_desc (λ r. r.created_at) d.dead_letters))

  unfoldable pub replay : String → Act String
  replay dlq_id = do
    call o
    found ← query o (λ d. select_where (dead_letter_is dlq_id) d.dead_letters)
    row ← lift (ok_or (not_found ("DLQ record " +++ dlq_id +++ " not found")) found)
    execute o (update_status (event_is row.event_id) (as_str received))
    execute o (delete_attempts row.event_id)
    execute o (delete_dead_letter dlq_id)
    pure row.event_id

  unfoldable pub replay_dlq : String → HeaderMap → Act Replayed
  replay_dlq dlq_id headers = do
    lift (verify_api_key headers cfg.auth.api_keys)
    event_id ← replay dlq_id
    pure (replayed_answer event_id)
