-- ===== src/Api/Management.antt =====
-- What the management of endpoints in src/api/endpoints.rs guarantees.
use aether_relay.Prelude.{
  ltb, ◌=?◌, ℕ, ◌<◌, String, ◌≡◌, refl, sym, ◌∙◌, Bool, true, false, ◌&&◌, ◌||◌, none, some, arith,
  eq_iff,
}
use aether_relay.Error.{ok}
use aether_relay.Crypto.Signature.{Provider, provider_from_str}
use aether_relay.Error.Try.{required_inv, check_inv}
use aether_relay.Api.Target.{
  Url, Parsers, CreateEndpointRequest, non_empty, is_blocked_host, check_scheme, check_host,
  validate_target_url, validate_new_endpoint,
}
use aether_relay.Api.Endpoints.{
  EndpointResponse, endpoint_row, to_response, undelivered, create, create_endpoint, delete_unless,
  delete_if_drained, deleted_answer, delete_endpoint,
}
use aether_relay.Store.Runs.{
  tick, Runs, bind_inv, transaction_inv, call_bind, query_bind, statement_bind,
}
use aether_relay.Config.{AppConfig}
use aether_relay.Crypto.Headers.{HeaderMap}
use aether_relay.Api.Steps.{lift_bind, now_secs_bind, now_v7_bind, last_step}
use aether_relay.Store.Tables.{count_where}
use aether_relay.Store.Tables.Laws.{count_where-delete_self}
use aether_relay.Store.Tables.Counts.{delete_covered}
use aether_relay.Store.Schema.{
  endpoint_is, event_is, event_of_endpoint, attempt_of, dead_letter_of, exists_where,
  insert_endpoint_breaks, insert_endpoint, cascades, delete_endpoint_rows,
}
use aether_relay.Store.{Outside, World, pure, lift}
use aether_relay.Store.Rows.{Db}
use aether_relay.Prelude.Str.{is_empty, trim}
use aether_relay.Models.{EndpointRecord}

module _ (p : Parsers) where
  -- What `validate_new_endpoint` lets through.
  pub record Allowed (req : CreateEndpointRequest) : Type 0 where
    pub provider : Provider
    pub known : provider_from_str req.provider ≡ ok provider
    pub named : is_empty (trim req.name) ≡ false
    pub secret : is_empty req.secret ≡ false
    pub url : Url
    pub parsed : p.parse_url req.target_url ≡ ok url
    pub web : (url.scheme =? "http" || url.scheme =? "https") ≡ true
    pub host : String
    pub hosted : url.host_str ≡ some host
    pub routable : is_blocked_host p host ≡ false

  non_empty_inv : (text problem : String) → non_empty text problem ≡ ok tt → is_empty text ≡ false
  non_empty_inv text problem h = ground arith

  check_scheme_inv :
      (scheme : String)
      → check_scheme p scheme ≡ ok tt
      → (scheme =? "http" || scheme =? "https") ≡ true
  check_scheme_inv scheme h = ground arith

  check_host_inv : (host : String) → check_host p host ≡ ok tt → is_blocked_host p host ≡ false
  check_host_inv host h = ground arith

  validate_new_endpoint_inv :
      (req : CreateEndpointRequest) → validate_new_endpoint p req ≡ ok tt → Allowed req
  unfolding validate_new_endpoint validate_target_url
  validate_new_endpoint_inv req h =
      let (_, named, h1) = check_inv (non_empty (trim req.name) _) _ h in
      let (provider, known, h2) = check_inv (provider_from_str req.provider) _ h1 in
      let (_, secret, h3) = check_inv (non_empty req.secret _) _ h2 in
      let (url, parsed, h4) = check_inv (p.parse_url req.target_url) _ h3 in
      let (_, web, h5) = check_inv (check_scheme p url.scheme) _ h4 in
      let (host, hosted, h6) = required_inv _ url.host_str _ h5 in
      record {
        provider = provider;
        known = known;
        named = non_empty_inv (trim req.name) _ named;
        secret = non_empty_inv req.secret _ secret;
        url = url;
        parsed = parsed;
        web = check_scheme_inv url.scheme web;
        host = host;
        hosted = hosted;
        routable = check_host_inv host h6;
      }

no_such_id :
    (row : EndpointRecord) (d : Db)
    → insert_endpoint_breaks row d ≡ none
    → count_where (endpoint_is row.id) d.endpoints ≡ 0
unfolding insert_endpoint_breaks
no_such_id row d h = ground arith

not_positive : (n : ℕ) → ltb 0 n ≡ false → n ≡ 0
not_positive n h = ground arith

-- Of the events that the endpoint had, no attempt and no dead letter is left.
abbrev pub NothingOf : String → Db → Db → Type 0
NothingOf endpoint_id before after =
    (event_id : String)
    → 0 < count_where (λ e. event_is event_id e && event_of_endpoint endpoint_id e) before.events
    → (count_where (attempt_of event_id) after.attempts ≡ 0)
      × (count_where (dead_letter_of event_id) after.dead_letters ≡ 0)

removed :
    (id : String) (d : Db)
    → exists_where (endpoint_is id) d.endpoints ≡ true
    → (count_where (endpoint_is id) (delete_endpoint_rows id d).endpoints ≡ 0)
      × (count_where (event_of_endpoint id) (delete_endpoint_rows id d).events ≡ 0)
      × NothingOf id d (delete_endpoint_rows id d)
unfolding delete_endpoint_rows
removed id d h = rw h (
  count_where-delete_self (endpoint_is id) d.endpoints,
  count_where-delete_self (event_of_endpoint id) d.events,
  λ event_id owned. (
    delete_covered (attempt_of event_id) (λ a. cascades id d.events a.event_id) d.attempts
        (λ a of_event. rw ((eq_iff a.event_id event_id).0 of_event) (ground (arith, owned))),
    delete_covered (dead_letter_of event_id) (λ r. cascades id d.events r.event_id) d.dead_letters
        (λ r of_event. rw ((eq_iff r.event_id event_id).0 of_event) (ground (arith, owned))),
  ),
)

module _ (o : Outside) (cfg : AppConfig) where
  create_inv :
      (req : CreateEndpointRequest) (w w' : World) (r : EndpointResponse)
      → Runs (create o cfg req) w r w'
      → (r ≡ to_response (endpoint_row req (o.uuid w.uuids) (o.time w.times)))
        × (insert_endpoint_breaks (endpoint_row req (o.uuid w.uuids) (o.time w.times)) w.db ≡ none)
        × (w'.db ≡ insert_endpoint (endpoint_row req (o.uuid w.uuids) (o.time w.times)) w.db)
  create_inv req w w' r h =
      let row = endpoint_row req (o.uuid w.uuids) (o.time w.times) in
      let (fits, h1) =
        statement_bind o (insert_endpoint_breaks row) (λ _. tt) (insert_endpoint row)
          (λ _. pure (to_response row)) _ w'
          (now_secs_bind o _ _ w' (now_v7_bind o _ _ w' (call_bind o _ w w' h))) in
      let (answer, after) = last_step (to_response row) r _ w' h1 in (answer, fits, after)

  -- An endpoint that is created has a name, a secret, a known provider, and an http or https target whose
  -- host is not blocked. Exactly its row is added, under a new identifier, and the answer is that row
  -- without the secret.
  pub create_endpoint_lem :
      (p : Parsers) (headers : HeaderMap) (req : CreateEndpointRequest) (w w' : World)
      (r : EndpointResponse)
      → Runs (create_endpoint o cfg p headers req) w r w'
      → Allowed p req
        × (r ≡ to_response (endpoint_row req r.id r.created_at))
        × (count_where (endpoint_is r.id) w.db.endpoints ≡ 0)
        × (w'.db ≡ insert_endpoint (endpoint_row req r.id r.created_at) w.db)
  unfolding create_endpoint insert_endpoint_breaks
  create_endpoint_lem p headers req w w' r h =
      let (_, _, h1) = lift_bind _ _ w w' h in
      let (_, allowed, h2) = lift_bind (validate_new_endpoint p req) _ w w' h1 in
      let (answer, fits, after) = create_inv req w w' r h2 in
      (
        validate_new_endpoint_inv p req allowed,
        rw answer refl,
        rw answer (no_such_id (endpoint_row req (o.uuid w.uuids) (o.time w.times)) w.db fits),
        rw answer after,
      )

  rows_inv :
      (endpoint_id : String) (pending : ℕ) (w w' : World) (b : Bool)
      → Runs (delete_unless o cfg false endpoint_id pending) w b w'
      → (b ≡ exists_where (endpoint_is endpoint_id) w.db.endpoints)
        × (w'.db ≡ delete_endpoint_rows endpoint_id w.db)
  rows_inv endpoint_id pending w w' b h =
      let (_, h1) =
        statement_bind o (λ _. none) (λ d. count_where (endpoint_is endpoint_id) d.endpoints)
          (delete_endpoint_rows endpoint_id) (λ rows. pure (ltb 0 rows)) w w' h in
      last_step _ b _ w' h1

  drained_inv :
      (stop : Bool) (endpoint_id : String) (pending : ℕ) (w w' : World) (b : Bool)
      → Runs (delete_unless o cfg stop endpoint_id pending) w b w'
      → (stop ≡ false) × Runs (delete_unless o cfg false endpoint_id pending) w b w'
  drained_inv false endpoint_id pending w w' b h = (refl, h)
  drained_inv true endpoint_id pending w w' b h = (cc, cc)

  delete_if_drained_inv :
      (endpoint_id : String) (w w' : World) (b : Bool)
      → Runs (delete_if_drained o cfg endpoint_id) w b w'
      → (count_where (undelivered endpoint_id) w.db.events ≡ 0)
        × (b ≡ exists_where (endpoint_is endpoint_id) w.db.endpoints)
        × (w'.db ≡ delete_endpoint_rows endpoint_id w.db)
  unfolding delete_if_drained
  delete_if_drained_inv endpoint_id w w' b h =
      let (v, run, after) = transaction_inv o _ w h in
      let (drained, h1) =
        drained_inv _ endpoint_id (count_where (undelivered endpoint_id) w.db.events) _ v b
          (query_bind o (λ d. count_where (undelivered endpoint_id) d.events) _ (tick w) v run) in
      let (existed, written) =
        rows_inv endpoint_id (count_where (undelivered endpoint_id) w.db.events) _ v b h1 in
      (
        not_positive (count_where (undelivered endpoint_id) w.db.events) drained,
        existed,
        rw after written,
      )

  deleted_inv :
      (endpoint_id : String) (b : Bool) (w w' : World) (a : Unit {0})
      → Runs (lift (deleted_answer o cfg endpoint_id b)) w a w'
      → (b ≡ true) × (w' ≡ w)
  deleted_inv endpoint_id true w w' a h = (refl, cc)
  deleted_inv endpoint_id false w w' a h = cc

  -- A delete that answers 204 has found the endpoint with no event RECEIVED or PROCESSING, and has
  -- removed it with its events, and the attempts and dead letters of those events.
  pub delete_endpoint_lem :
      (endpoint_id : String) (headers : HeaderMap) (w w' : World) (a : Unit {0})
      → Runs (delete_endpoint o cfg endpoint_id headers) w a w'
      → (count_where (undelivered endpoint_id) w.db.events ≡ 0)
        × (exists_where (endpoint_is endpoint_id) w.db.endpoints ≡ true)
        × (count_where (endpoint_is endpoint_id) w'.db.endpoints ≡ 0)
        × (count_where (event_of_endpoint endpoint_id) w'.db.events ≡ 0)
        × NothingOf endpoint_id w.db w'.db
  unfolding delete_endpoint
  delete_endpoint_lem endpoint_id headers w w' a h =
      let (_, _, h1) = lift_bind _ _ w w' h in
      let (b, v, run, rest) =
        bind_inv (delete_if_drained o cfg endpoint_id) _ (tick w) w' (call_bind o _ w w' h1) in
      let (drained, existed, written) = delete_if_drained_inv endpoint_id (tick w) v b run in
      let (deleted, same) = deleted_inv endpoint_id b v w' a rest in
      let found = sym existed ∙ deleted in
      let (no_endpoint, no_event, no_rows) = removed endpoint_id w.db found in
      (
        drained,
        found,
        rw (same, written) no_endpoint,
        rw (same, written) no_event,
        rw (same, written) no_rows,
      )
