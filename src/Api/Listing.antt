-- ===== src/Api/Listing.antt =====
-- What the list of dead letters in src/api/dlq.rs holds.
use aether_relay.Prelude.{take, ◌≡◌, ap, Bool, List}
use aether_relay.Config.{AppConfig}
use aether_relay.Models.{DeadLetterRow}
use aether_relay.Store.{Outside, World}
use aether_relay.Store.Runs.{tick, Runs, query_inv, call_bind}
use aether_relay.Store.Tables.{count_where, order_by_desc}
use aether_relay.Store.Tables.Order.{
  IsDescending, order_by_desc-IsDescending, count_where-order_by_desc,
}
use aether_relay.Crypto.Headers.{HeaderMap}
use aether_relay.Api.Steps.{lift_bind}
use aether_relay.Api.Dlq.{list_dlq}

-- A list that answers is the first hundred, or all if there are fewer, of the dead letters in an order that
-- starts with the newest, and writes nothing. The order has the rows of the table, each as often.
pub list_dlq_lem :
    (o : Outside) (cfg : AppConfig) (headers : HeaderMap) (w w' : World) (rows : List DeadLetterRow)
    → Runs (list_dlq o cfg headers) w rows w'
    → (ordered : List DeadLetterRow) × (rows ≡ take 100 ordered)
      × IsDescending (λ r. r.created_at) ordered
      × ((q : DeadLetterRow → Bool) → count_where q ordered ≡ count_where q w.db.dead_letters)
      × (w'.db ≡ w.db)
unfolding list_dlq
list_dlq_lem o cfg headers w w' rows h =
    let (_, _, h1) = lift_bind _ _ w w' h in
    let ordered = order_by_desc (λ (r : DeadLetterRow). r.created_at) w.db.dead_letters in
    let (value, after) =
      query_inv o
        (λ d. take 100 (order_by_desc (λ (r : DeadLetterRow). r.created_at) d.dead_letters))
        (tick w) (call_bind o _ w w' h1) in
    (
      ordered,
      value,
      order_by_desc-IsDescending (λ (r : DeadLetterRow). r.created_at) w.db.dead_letters,
      (λ q. count_where-order_by_desc (λ (r : DeadLetterRow). r.created_at) q w.db.dead_letters),
      ap (λ (v : World). v.db) after,
    )
