-- ===== src/Tests/Draining.antt =====
-- The worker on the small relay, until its queue is empty.
use aether_relay.Prelude.{ℕ, zero, suc, ◌+◌, ◌≤◌, ◌≡◌, refl, inl, inr, arith}
use aether_relay.Store.{response, Outside}
use aether_relay.Tests.Fixture.{endpoint, first_event, second_event, db, outside, start}
use aether_relay.Models.{as_str}
use aether_relay.Tests.Worker.{worker, cfg}
use aether_relay.Tests.Sequences.{empty, empty-IsSound}
use aether_relay.System.Interleaving.{
  add_endpoint, add_event, Writes, none_yet, later, Writes-IsSound,
}
use aether_relay.Runner.Budget.Draining.{
  world_at, settled_rounds, settled_rounds-le, GoesWell, IsDrained, run_dispatch_loop_drains,
}
use aether_relay.Store.Schema.{
  insert_endpoint_breaks, insert_endpoint, insert_event_breaks, insert_event,
}
use aether_relay.System.Sound.{IsSound}
use aether_relay.Store.Tables.{count_where}
use aether_relay.Runner.Budget.{attempts_left, budget}
use aether_relay.Store.Tables.Sums.{sum_where}

fills : Writes empty.db db
unfolding insert_endpoint_breaks insert_endpoint insert_event insert_event_breaks count_where as_str
fills =
    later
      (later (later none_yet (add_endpoint endpoint refl refl))
        (add_event second_event refl refl refl))
      (add_event first_event refl refl refl)

pub start-IsSound : IsSound start.db
start-IsSound = Writes-IsSound empty.db db fills empty-IsSound

abbrev pub accepting : Outside
accepting = outside (response 200)

abbrev pub least : ℕ → ℕ → ℕ → ℕ
least n lo hi = lo

settled_rounds-le_example :
    settled_rounds accepting least cfg 3 start + budget 2 (world_at accepting least cfg 3 start).db
    ≤ budget 2 start.db
settled_rounds-le_example = settled_rounds-le accepting least cfg 3 start start-IsSound

-- Two events, each of which may be tried twice.
four_left : budget 2 start.db ≡ 4
unfolding budget sum_where attempts_left count_where as_str
four_left = refl

goes_well : GoesWell accepting least cfg 5 start
unfolding worker
goes_well zero h = inl refl
goes_well (suc zero) h = inl refl
goes_well (suc (suc zero)) h = inr refl
goes_well (suc (suc (suc zero))) h = inr refl
goes_well (suc (suc (suc (suc zero)))) h = inr refl
goes_well (suc (suc (suc (suc (suc k))))) h = absurd (omega arith)

run_dispatch_loop_drains_example :
    IsDrained accepting least cfg (world_at accepting least cfg 5 start)
run_dispatch_loop_drains_example =
    run_dispatch_loop_drains accepting least cfg 5 start start-IsSound goes_well
      (omega (arith, four_left))
