-- ===== src/Tests/Settled.antt =====
-- A webhook from its arrival to its delivery.
use aether_relay.Prelude.{
  ℕ, zero, suc, ◌<◌, String, ◌≡◌, refl, sym, ap, ◌∙◌, ◌≢◌, Bool, true, false, Option, none, some,
  arith,
}
use aether_relay.Store.{Outside}
use aether_relay.Config.{AppConfig}
use aether_relay.Runner.{from_app_config}
use aether_relay.Runner.Budget.{attempts_left, budget}
use aether_relay.Store.Schema.{attempt_is, insert_event}
use aether_relay.Store.Tables.{count_where}
use aether_relay.Store.Tables.Sums.{sum_where}
use aether_relay.Api.Ingest.{accepted, handle_ingest}
use aether_relay.Tests.Fixture.{start}
use aether_relay.Tests.Requests.{crates, body, headers}
use aether_relay.Tests.Handlers.{cfg, json, handlers, parsers}
use aether_relay.Tests.Worker.{worker}
use aether_relay.Tests.Draining.{start-IsSound, accepting, least}
use aether_relay.Tests.Sequences.{start-IsTyped}
use aether_relay.System.Evidence.{in_state}
use aether_relay.Models.{delivered}
use aether_relay.System.Answering.{webhook_delivers}
use aether_relay.System.Settled.{ingested}
use aether_relay.Runner.Progress.{NoneProcessing}
use aether_relay.Runner.Budget.Draining.{world_at}
use aether_relay.System.Smooth.Passes.{AllDiffer}
use aether_relay.System.Smooth.{IsAnswering, AllClosed}

-- Each event may be tried once.
abbrev once : AppConfig
once = record cfg { worker = record cfg.worker { max_attempts = 1 } }

-- Identifiers that differ in their length.
unfoldable tally : ℕ → String
tally zero = "i"
tally (suc n) = String.◌∷◌ "i" (tally n)

unfoldable rest_of : String → String
rest_of String.[] = ""
rest_of (String.◌∷◌ c s) = s

unfoldable begun : String → Bool
begun String.[] = false
begun (String.◌∷◌ c s) = true

false-ne-true : false ≢ true
false-ne-true h = cc h

tally-begun : (n : ℕ) → begun (tally n) ≡ true
unfolding tally begun
tally-begun zero = refl
tally-begun (suc n) = refl

tally-AllDiffer : AllDiffer tally
unfolding tally rest_of begun
tally-AllDiffer zero zero h = refl
tally-AllDiffer zero (suc n) h =
    absurd (false-ne-true (ap (λ s. begun (rest_of s)) h ∙ tally-begun n))
tally-AllDiffer (suc m) zero h =
    absurd (false-ne-true (sym (ap (λ s. begun (rest_of s)) h) ∙ tally-begun m))
tally-AllDiffer (suc m) (suc n) h = ap suc (tally-AllDiffer m n (ap rest_of h))

abbrev counting : Outside
counting = record accepting { uuid = tally }

answered : (handle_ingest counting crates json once "ep" headers body start).0 ≡ accepted (tally 0)
unfolding handlers tally
answered = refl

none_at_work : NoneProcessing start.db
unfolding worker
none_at_work = refl

three_left : budget 1 (ingested counting crates json parsers once "ep" headers body start).db < 4
unfolding handlers budget sum_where attempts_left insert_event tally
three_left = omega arith

none_tried : (n : ℕ) → count_where (attempt_is (tally n)) start.db.attempts ≡ 0
unfolding count_where
none_tried n = refl

no_breakers :
    (ingested counting crates json parsers once "ep" headers body start).breakers ≡ (λ id. none)
unfolding handlers insert_event tally
no_breakers = refl

none-ne-some : {A : Type 0} (a : A) → ◌≢◌ {A = Option A} none (some a)
none-ne-some a h = cc h

all_shut : AllClosed (ingested counting crates json parsers once "ep" headers body start)
all_shut id b h = absurd (none-ne-some b (sym (ap (λ bs. bs id) no_breakers) ∙ h))

max_is_one : (from_app_config once).max_attempts ≡ 1
unfolding from_app_config
max_is_one = refl

answers : IsAnswering counting
unfolding worker
answers k url sent = (200, (refl, omega arith, omega arith))

webhook_delivers_example :
    0
    < count_where
        (in_state delivered (tally 0))
        (world_at counting least
          (from_app_config once)
          4
          (ingested counting crates json parsers once "ep" headers body start)).db.events
webhook_delivers_example =
    webhook_delivers counting crates json parsers once "ep" headers body least 4 start (tally 0)
      answers (λ n. refl) start-IsSound start-IsTyped none_at_work answered tally-AllDiffer
      none_tried all_shut (rw max_is_one three_left)
