-- ===== src/Runner/Claims.antt =====
-- The claim of src/worker/runner.rs: the oldest waiting event, and never the same one twice.
use mathlib.Core.Option
use aether_relay.Prelude.{
  Option-cases, All, String, ◌≡◌, refl, sym, ap, ◌∙◌, ◌≢◌, ◌⊎◌, inl, inr, true, false, ◌&&◌, Option,
  none, some, List, ◌∷◌, ◌++◌, arith, eq_iff,
}
use aether_relay.Models.{received, processing, as_str, EventRow}
use aether_relay.Store.{Outside, World, Act, ◌>>=◌}
use aether_relay.Store.Tables.{update_where, count_where, first_where}
use aether_relay.Runner.{comes_first, event_received, ids_of, mark, claim_next_event}
use aether_relay.Store.Runs.{
  tick, Runs, pure_inv, transaction_inv, call_bind, query_bind, execute_bind,
}
use aether_relay.Store.Schema.{event_is, with_status, update_status}
use aether_relay.Prelude.TextOrder.{le_text_total, le_text_trans}
use aether_relay.Store.Rows.{Db}
use aether_relay.Store.Tables.Laws.{
  count_where-update_none, first_where_counted, first_where-none_iff, first_where_sound,
  first_where_stands, first_where_least,
}

comes_first_total : (e f : EventRow) → comes_first e f ≡ false → comes_first f e ≡ true
comes_first_total e f h = ground (arith, le_text_total e.id f.id)

comes_first_trans :
    (e f g : EventRow) → comes_first e f ≡ true → comes_first f g ≡ true → comes_first e g ≡ true
comes_first_trans e f g h k = ground (arith, le_text_trans e.id f.id g.id)

abbrev Claimed : Type 0
Claimed = Option (String × String)

abbrev pub waiting : World → Option EventRow
waiting w = first_where comes_first event_received w.db.events

-- What the claim writes.
unfoldable pub marked : Option EventRow → Db → Db
marked none d = d
marked (some e) d = update_status (event_is e.id) (as_str processing) d

module _ (o : Outside) {B : Type 0} where
  mark_bind :
      (found : Option EventRow) (f : Unit {0} → Act B) (w w' : World) {b : B}
      → Runs (mark o found >>= f) w b w'
      → (u : World) × (u ≡ record w { db = marked found w.db; calls = u.calls })
        × Runs (f tt) u b w'
  unfolding ◌>>=◌ marked
  mark_bind none f w w' h = (w, refl, h)
  mark_bind (some e) f w w' h =
      (_, refl, execute_bind o (update_status (event_is e.id) (as_str processing)) f w w' h)

module _ (o : Outside) (w w' : World) where
  pub claim_next_event_inv :
      (claimed : Claimed)
      → Runs (claim_next_event o) w claimed w'
      → (claimed ≡ Option.map ids_of (waiting w))
        × (w' ≡ record w { db = marked (waiting w) w.db; calls = w'.calls })
  unfolding ◌>>=◌ claim_next_event
  claim_next_event_inv claimed h =
      let h₁ = call_bind o _ w w' h in
      let (v, body, at_end) = transaction_inv o _ (tick w) h₁ in
      let h₂ =
        query_bind o (λ d. first_where comes_first event_received d.events) _ (tick (tick w)) v
          body in
      let (u, at_u, h₃) = mark_bind o (waiting w) _ (tick (tick (tick w))) v h₂ in
      let (result, at_v) = pure_inv (Option.map ids_of (waiting w)) claimed u v h₃ in
      (result, rw (at_end, at_v, at_u) refl)

module _ (w w' : World) (claimed : Claimed) where
  -- Nothing waits, nothing is claimed and nothing is written.
  pub record ClaimsNothing : Type 0 where
    pub nothing : claimed ≡ none
    pub empty : count_where event_received w.db.events ≡ 0
    pub same : w'.db ≡ w.db

  -- The claimed row is one of the table, was waiting and comes before every waiting row; it alone is marked.
  pub record ClaimsOldest : Type 0 where
    pub row : EventRow
    pub before : List EventRow
    pub after : List EventRow
    pub stands : w.db.events ≡ before ++ row ∷ after
    pub taken : claimed ≡ some (row.id, row.endpoint_id)
    pub was_received : row.status ≡ as_str received
    pub oldest : All (λ f. event_received f ≡ true → comes_first row f ≡ true) w.db.events
    pub written : w'.db ≡ update_status (event_is row.id) (as_str processing) w.db

  claim_cases :
      (found : Option EventRow)
      → waiting w ≡ found
      → claimed ≡ Option.map ids_of found
      → w'.db ≡ marked found w.db
      → ClaimsNothing ⊎ ClaimsOldest
  unfolding marked
  claim_cases none is_waiting result written = inl (record {
    nothing = result;
    empty = (first_where-none_iff comes_first event_received w.db.events).0 is_waiting;
    same = written;
  })
  claim_cases (some e) is_waiting result written =
      let (before, after, stands) =
        first_where_stands comes_first event_received w.db.events e is_waiting in
      inr (record {
        row = e;
        before = before;
        after = after;
        stands = stands;
        taken = result;
        was_received =
            (eq_iff e.status (as_str received)).0
              (first_where_sound comes_first event_received w.db.events e is_waiting);
        oldest =
            first_where_least comes_first event_received comes_first_total comes_first_trans
              w.db.events e is_waiting;
        written = written;
      })

-- A claim that returns has either found no RECEIVED event and written nothing, or taken a row of the table that
-- is RECEIVED and comes before every other RECEIVED one, by time of arrival and then by identifier, and marked
-- it PROCESSING.
pub claim_next_event_lem :
    (o : Outside) (w w' : World) (claimed : Claimed)
    → Runs (claim_next_event o) w claimed w'
    → ClaimsNothing w w' claimed ⊎ ClaimsOldest w w' claimed
claim_next_event_lem o w w' claimed h =
    let (result, after) = claim_next_event_inv o w w' claimed h in
    claim_cases w w' claimed (waiting w) refl result (ap (λ (x : World). x.db) after)

pub no_claim : (o : Outside) (w w' : World) → Runs (claim_next_event o) w none w' → w'.db ≡ w.db
unfolding marked
no_claim o w w' h =
    let (result, after) = claim_next_event_inv o w w' none h in
    elim (Option-cases (waiting w)) [
      | inl none_waits ↦
          ap (λ (x : World). x.db) after
          ∙ ap (λ (found : Option EventRow). marked found w.db) none_waits
      | inr (e, waits) ↦ absurd (cc (rw waits at result))
    ]

pub some_claim :
    (o : Outside) (w w' : World) (id endpoint_id : String)
    → Runs (claim_next_event o) w (some (id, endpoint_id)) w'
    → (e : EventRow) × (waiting w ≡ some e)
      × (e.id ≡ id)
      × (w'.db ≡ update_status (event_is id) (as_str processing) w.db)
unfolding marked
some_claim o w w' id endpoint_id h =
    let (result, after) = claim_next_event_inv o w w' _ h in
    elim (Option-cases (waiting w)) [
      | inl none_waits ↦ absurd (cc (rw none_waits at result))
      | inr (e, waits) ↦
          let same : id ≡ e.id = ground (arith, rw waits at result) in
          (
            e,
            waits,
            sym same,
            rw same (
                ap (λ (x : World). x.db) after
                ∙ ap (λ (found : Option EventRow). marked found w.db) waits),
          )
    ]

none_left :
    (id : String) (events : List EventRow)
    → count_where
        (λ x. event_received x && event_is id x)
        (update_where (event_is id) (with_status (as_str processing)) events)
      ≡ 0
unfolding as_str
none_left id events =
    count_where-update_none (event_is id) (λ x. event_received x && event_is id x)
      (with_status (as_str processing)) events (λ x h. refl) (λ x h. ground arith)

-- Two workers that claim one after the other, with nothing written between, never get the same event.
pub claims_differ :
    (o : Outside) (w w' v v' : World) (id id' endpoint_id endpoint_id' : String)
    → Runs (claim_next_event o) w (some (id, endpoint_id)) w'
    → v.db ≡ w'.db
    → Runs (claim_next_event o) v (some (id', endpoint_id')) v'
    → id ≢ id'
unfolding update_status
claims_differ o w w' v v' id id' endpoint_id endpoint_id' first between second same =
    let (_, _, _, written) = some_claim o w w' id endpoint_id first in
    let (e, is_waiting, is_id, _) = some_claim o v v' id' endpoint_id' second in
    let still =
      first_where_counted comes_first event_received (event_is id) v.db.events e is_waiting
        ((eq_iff e.id id).1 (is_id ∙ sym same)) in
    let gone = none_left id w.db.events in
    absurd (
      omega (
        arith,
        still,
        gone,
        ap (λ (d : Db). count_where (λ x. event_received x && event_is id x) d.events)
            (between ∙ written),
      ))
