-- ===== src/Main.antt =====
-- src/main.rs: the start of the gateway, up to the moment it listens. The configuration's reader, the
-- logger, the HTTP client and the network are the host's.
pub mod Listening
use aether_relay.Prelude.{
  ◌=?◌, ℕ, String, ◌+++◌, ◌⊎◌, inl, inr, Bool, true, false, Option, none, some, List, [], ◌∷◌,
}
use aether_relay.Prelude.Text.{decimal}
use aether_relay.Config.{AppConfig}
use aether_relay.Store.{Metric}
use aether_relay.Startup.{PoolInitError, Disk, create_pool}
use aether_relay.Startup.Pragmas.{fmt}
use aether_relay.Runner.{DispatchLoopConfig, from_app_config}
use aether_relay.Api.Metrics.{Exporter, install_prometheus_exporter}

-- What the start does besides the database and the exporter.
pub data Effect : Type 0 where
  logging : (is_json : Bool) (filter : String) → Effect
  warned : Effect
  spawned : DispatchLoopConfig → Effect
  listening : String → Effect

-- The latest effect stands first.
pub record Process : Type 0 where
  pub disk : Disk
  pub exporter : Exporter
  pub effects : List Effect

-- What is not the program's: an error is its text.
pub record Host : Type 0 where
  pub load : String ⊎ AppConfig
  pub env_filter : Option String
  pub fault : ℕ → Option String
  pub open_files : Disk → Disk
  pub client : Option String
  pub render : List Metric → String
  pub parse_addr : String → String ⊎ String
  pub bind : String → Option String
  pub serve : Option String

abbrev pub Boot : Type 0 → Type 0
Boot A = Process → (String ⊎ A) × Process

abbrev pub proceed : {A B : Type 0} → String ⊎ A → (A → Boot B) → Boot B
proceed (inl e) f p = (inl e, p)
proceed (inr a) f p = f a p

infixl 5 ◌>>=◌ ◌>>◌
unfoldable pub ◌>>=◌ : {A B : Type 0} → Boot A → (A → Boot B) → Boot B
◌>>=◌ m f p = let (r, p') = m p in proceed r f p'

abbrev pub ◌>>◌ : {B : Type 0} → Boot (Unit {0}) → Boot B → Boot B
m >> k = m >>= λ _. k

abbrev pub give : {A : Type 0} → A → Boot A
give a p = (inr a, p)

abbrev pub given : {A : Type 0} → String ⊎ A → Boot A
given r p = (r, p)

abbrev pub unless : Option String → Boot (Unit {0})
unless none p = (inr tt, p)
unless (some e) p = (inl e, p)

abbrev pub note : Effect → Boot (Unit {0})
note e p = (inr tt, record p { effects = e ∷ p.effects })

abbrev pub filter_of : Option String → String → String
filter_of none level = level
filter_of (some filter) level = filter

-- No key at all is said aloud.
abbrev pub warn_unkeyed : List String → Boot (Unit {0})
warn_unkeyed [] p = note warned p
warn_unkeyed (k ∷ ks) p = (inr tt, p)

abbrev pub settle_pool : Option PoolInitError → Disk → Boot (Unit {0})
settle_pool none disk p = (inr tt, record p { disk = disk })
settle_pool (some e) disk p = (inl (fmt e), record p { disk = disk })

abbrev pub install_if : Bool → (List Metric → String) → Boot (Unit {0})
install_if true render p =
    (inr tt, record p { exporter = install_prometheus_exporter render p.exporter })
install_if false render p = (inr tt, p)

module _ (host : Host) where
  abbrev pub open_pool : String → Boot (Unit {0})
  open_pool path p =
      let (result, disk) = create_pool host.fault host.open_files path p.disk in
      settle_pool result disk p

  -- From the configuration on.
  unfoldable pub bring_up : AppConfig → Boot (AppConfig × String)
  bring_up app_config = do
    note (
        logging (app_config.logging.format =? "json")
          (filter_of host.env_filter app_config.logging.level))
    warn_unkeyed app_config.auth.api_keys
    open_pool app_config.database.path
    unless host.client
    note (spawned (from_app_config app_config))
    install_if app_config.metrics.enabled host.render
    addr ←
        given (host.parse_addr (app_config.server.host +++ ":" +++ decimal app_config.server.port))
    unless (host.bind addr)
    note (listening addr)
    give (app_config, addr)

  unfoldable pub start_up : Boot (AppConfig × String)
  start_up = do app_config ← given host.load; bring_up app_config

  -- The server runs until its host ends it.
  unfoldable pub main : Boot (Unit {0})
  main = do _ ← start_up; unless host.serve
