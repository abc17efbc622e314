-- ===== src/Main/Listening.antt =====
-- What has happened when the gateway listens.
use aether_relay.Prelude.{
  ◌=?◌, if◌then◌else◌, String, ◌≡◌, refl, ap, subst, ◌⊎◌, inl, inr, Bool, true, false, Option, none,
  some, List, [], ◌∷◌,
}
use aether_relay.Main.{
  Effect, logging, warned, spawned, listening, Process, Host, Boot, proceed, ◌>>=◌, give, given,
  unless, note, filter_of, warn_unkeyed, settle_pool, install_if, open_pool, bring_up, start_up,
}
use aether_relay.Store.{Metric}
use aether_relay.Startup.{PoolInitError, Disk, create_pool}
use aether_relay.Api.Metrics.{Exporter, install_prometheus_exporter}
use aether_relay.Config.{AppConfig}
use aether_relay.Runner.{from_app_config}
use aether_relay.Startup.Migrated.{IsMigratable}
use aether_relay.Startup.Restricted.{IsReady, files_of, create_pool_lem}
use aether_relay.Startup.Triples.{After}

-- What `warn_unkeyed` adds to the effects.
abbrev pub warnings : List String → List Effect → List Effect
warnings [] effects = warned ∷ effects
warnings (k ∷ ks) effects = effects

-- What is installed behind `/metrics`.
abbrev pub exporter_if : Bool → (List Metric → String) → Exporter → Exporter
exporter_if enabled render exporter =
    if enabled then install_prometheus_exporter render exporter else exporter

module _ {A B : Type 0} where
  proceed_inv :
      (r : String ⊎ A) (f : A → Boot B) (p q : Process) (b : B)
      → proceed r f p ≡ (inr b, q)
      → (a : A) × (r ≡ inr a) × (f a p ≡ (inr b, q))
  proceed_inv (inl e) f p q b h = absurd (cc h)
  proceed_inv (inr a) f p q b h = (a, refl, h)

  given_bind :
      (r : String ⊎ A) (f : A → Boot B) (p q : Process) (b : B)
      → (given r >>= f) p ≡ (inr b, q)
      → (a : A) × (r ≡ inr a) × (f a p ≡ (inr b, q))
  unfolding ◌>>=◌
  given_bind r f p q b h = proceed_inv r f p q b h

module _ {B : Type 0} where
  unless_bind :
      (e : Option String) (f : Unit {0} → Boot B) (p q : Process) (b : B)
      → (unless e >>= f) p ≡ (inr b, q)
      → f tt p ≡ (inr b, q)
  unfolding ◌>>=◌
  unless_bind none f p q b h = h
  unless_bind (some e) f p q b h = absurd (cc h)

  note_bind :
      (e : Effect) (f : Unit {0} → Boot B) (p q : Process) (b : B)
      → (note e >>= f) p ≡ (inr b, q)
      → f tt (record p { effects = e ∷ p.effects }) ≡ (inr b, q)
  unfolding ◌>>=◌
  note_bind e f p q b h = h

  warn_bind :
      (keys : List String) (f : Unit {0} → Boot B) (p q : Process) (b : B)
      → (warn_unkeyed keys >>= f) p ≡ (inr b, q)
      → f tt (record p { effects = warnings keys p.effects }) ≡ (inr b, q)
  unfolding ◌>>=◌
  warn_bind [] f p q b h = h
  warn_bind (k ∷ ks) f p q b h = h

  install_bind :
      (enabled : Bool) (render : List Metric → String) (f : Unit {0} → Boot B) (p q : Process)
      (b : B)
      → (install_if enabled render >>= f) p ≡ (inr b, q)
      → f tt (record p { exporter = exporter_if enabled render p.exporter }) ≡ (inr b, q)
  unfolding ◌>>=◌
  install_bind true render f p q b h = h
  install_bind false render f p q b h = h

  settle_pool_bind :
      (result : Option PoolInitError) (disk : Disk) (f : Unit {0} → Boot B) (p q : Process) (b : B)
      → (settle_pool result disk >>= f) p ≡ (inr b, q)
      → (result ≡ none) × (f tt (record p { disk = disk }) ≡ (inr b, q))
  unfolding ◌>>=◌
  settle_pool_bind none disk f p q b h = (refl, h)
  settle_pool_bind (some e) disk f p q b h = absurd (cc h)

given_back :
    (cfg cfg' : AppConfig) (addr addr' : String) (p q : Process)
    → give {A = AppConfig × String} (cfg, addr) p ≡ (inr (cfg', addr'), q)
    → (cfg ≡ cfg') × (addr ≡ addr') × (p ≡ q)
given_back cfg cfg' addr addr' p q h = (cc, cc, cc)

module _ (host : Host) where
  pool_bind :
      {B : Type 0} (path : String) (f : Unit {0} → Boot B) (p q : Process) (b : B)
      → (open_pool host path >>= f) p ≡ (inr b, q)
      → ((create_pool host.fault host.open_files path p.disk).0 ≡ none)
        × (f tt (record p { disk = (create_pool host.fault host.open_files path p.disk).1 })
            ≡ (inr b, q))
  unfolding ◌>>=◌
  pool_bind path f p q b h =
      settle_pool_bind (create_pool host.fault host.open_files path p.disk).0
        (create_pool host.fault host.open_files path p.disk).1 f p q b h

  module _ (p q : Process) (cfg : AppConfig) (addr : String) where
    -- The gateway listens: its configuration was read, its pool was created, and this is what it did, the
    -- latest first.
    pub record IsListening : Type 0 where
      pub loaded : host.load ≡ inr cfg
      pub created : create_pool host.fault host.open_files cfg.database.path p.disk ≡ (none, q.disk)
      pub effects :
          q.effects
          ≡ listening addr
            ∷ spawned (from_app_config cfg)
            ∷ warnings cfg.auth.api_keys (
                logging (cfg.logging.format =? "json") (filter_of host.env_filter cfg.logging.level)
                ∷ p.effects)
      pub exporter : q.exporter ≡ exporter_if cfg.metrics.enabled host.render p.exporter

  module _ (p q : Process) (cfg : AppConfig) (addr : String) where
    brought_up :
        (cfg' : AppConfig)
        → host.load ≡ inr cfg'
        → bring_up host cfg' p ≡ (inr (cfg, addr), q)
        → IsListening p q cfg addr
    unfolding bring_up
    brought_up cfg' loaded h =
        let b : AppConfig × String = (cfg, addr) in
        let path = cfg'.database.path in
        let start =
          logging (cfg'.logging.format =? "json") (filter_of host.env_filter cfg'.logging.level)
          ∷ p.effects in
        let p₁ = record p { effects = start } in
        let p₂ = record p { effects = warnings cfg'.auth.api_keys start } in
        let h₁ = warn_bind cfg'.auth.api_keys _ p₁ q b (note_bind _ _ p q b h) in
        let (created, h₂) = pool_bind path _ p₂ q b h₁ in
        let p₃ = record p₂ { disk = (create_pool host.fault host.open_files path p.disk).1 } in
        let h₃ = note_bind _ _ p₃ q b (unless_bind host.client _ p₃ q b h₂) in
        let p₄ = record p₃ { effects = spawned (from_app_config cfg') ∷ p₃.effects } in
        let h₄ = install_bind cfg'.metrics.enabled host.render _ p₄ q b h₃ in
        let p₅ = record p₄ { exporter = exporter_if cfg'.metrics.enabled host.render p.exporter } in
        let (addr', parsed, h₅) = given_bind (host.parse_addr _) _ p₅ q b h₄ in
        let h₆ = note_bind _ _ p₅ q b (unless_bind (host.bind addr') _ p₅ q b h₅) in
        let p₆ = record p₅ { effects = listening addr' ∷ p₅.effects } in
        let (same_cfg, same_addr, at_q) = given_back cfg' cfg addr' addr p₆ q h₆ in
        rw (← same_cfg, ← same_addr, ← at_q)
          (record {
            loaded = loaded;
            created = ap (λ (r : Option PoolInitError). (r, p₃.disk)) created;
            effects = refl;
            exporter = refl;
          })

    pub start_up_inv : start_up host p ≡ (inr (cfg, addr), q) → IsListening p q cfg addr
    unfolding start_up
    start_up_inv h =
        let (cfg', loaded, rest) = given_bind host.load _ p q (cfg, addr) h in
        brought_up cfg' loaded rest

-- A gateway that listens has read its configuration and created its pool, and the database has the whole
-- schema and, as far as its files exist, is its owner's alone. Before it listened it set up logging, warned
-- if no API key is configured, and started the worker with the configured limits, in this order, and it
-- installed the exporter exactly if metrics are enabled. The hypotheses are those under which a pool is
-- created well:
-- opening the files does not break the schema, the database is a file, and the disk records a version only
-- with the whole schema.
pub start_up_lem :
    (host : Host) (p q : Process) (cfg : AppConfig) (addr : String)
    → start_up host p ≡ (inr (cfg, addr), q)
    → ((d : Disk) → IsMigratable d → IsMigratable (host.open_files d))
    → (cfg.database.path =? ":memory:") ≡ false
    → IsMigratable p.disk
    → IsListening host p q cfg addr × IsReady (files_of cfg.database.path) q.disk
start_up_lem host p q cfg addr h harmless on_disk m =
    let up = start_up_inv host p q cfg addr h in
    (
      up,
      subst (After (IsReady (files_of cfg.database.path)) IsMigratable) up.created
          (create_pool_lem host.fault host.open_files cfg.database.path p.disk harmless on_disk m),
    )
