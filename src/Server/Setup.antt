-- ===== src/Server/Setup.antt =====
-- `New`, `Close` and `envOr` of `pkg/server/server.go`: how a server is put together, and what becomes of
-- the connection pool that it may open itself. The values of the configuration that `New` only passes
-- on, such as its callbacks and its logger, are left out.
pub mod Pools
mod Tests
use gomyadmin.Base.{
  ℕ, Bool, true, false, not, ◌&&◌, Option, none, some, [], ◌++◌, Str, ◌==◌, str_eq, if◌then◌else◌,
}
use gomyadmin.Base.Result.{Result, ok, err, ◌>>=◌}
use gomyadmin.Text.Case.{to_lower}
use gomyadmin.Text.{lit, has_prefix}

-- `type Config struct`. A member of an interface type is there or not; a pool is known by a number.
pub record Config : Type 0 where
  pub database_url : Str
  pub pool : Option ℕ
  pub has_store : Bool
  pub has_sessions : Bool
  pub has_api_keys : Bool
  pub has_uploads : Bool
  pub upload_dir : Str
  pub public_url : Str
  pub signing_secret : Str
  pub oauth_success_url : Str
  pub oauth_failure_url : Str
  pub own_pool : Bool

-- Where a part of the server comes from: the configuration, a pool, or the memory.
pub data Source : Type 0 where
  given : Source
  postgres : ℕ → Source
  memory : Source

-- `type AdminServer struct`; the API keys may be missing.
pub record AdminServer : Type 0 where
  pub cfg : Config
  pub store : Source
  pub sessions : Source
  pub api_keys : Option Source
  pub upload_root : Option (Str × Str)
  pub secure : Bool

pub data SetupError : Type 0 where
  store_or_url_required url_and_pool connect_failed migrate_failed : SetupError

-- The environment, and the calls of the pool and of the migrations of its tables
pub record Outside : Type 1 where
  pub State : Type 0
  pub getenv : Str → Str
  pub connect : Str → State → Option (ℕ × State)
  pub close_pool : ℕ → State → State
  pub migrate_store : ℕ → State → State × Bool
  pub migrate_sessions : ℕ → State → State × Bool
  pub migrate_keys : ℕ → State → State × Bool

module _ (out : Outside) where
  open out use {State, getenv, connect, close_pool, migrate_store, migrate_sessions, migrate_keys}

  -- `func envOr`
  unfoldable pub env_or : Str → Str → Str
  env_or key fallback = if getenv key == [] then fallback else getenv key

  abbrev or_default : Str → Str → Str
  or_default value fallback = if value == [] then fallback else value

  -- The defaults of `New`
  unfoldable pub with_defaults : Config → Config
  unfolding env_or
  with_defaults cfg = record cfg {
    upload_dir = or_default cfg.upload_dir (lit "tmp/uploads");
    public_url =
        or_default cfg.public_url
          (env_or (lit "GOMYADMIN_PUBLIC_URL") (lit "http://localhost:8080"));
    signing_secret =
        or_default cfg.signing_secret
          (env_or (lit "GOMYADMIN_SESSION_SECRET") (lit "gomyadmin-dev-secret"));
    oauth_success_url = or_default cfg.oauth_success_url (lit "/admin/dashboard");
    oauth_failure_url = or_default cfg.oauth_failure_url (lit "/admin/login");
  }

  -- `if cfg.ownPool { pool.Close() }`, before an error is returned
  unfoldable pub give_up : Config → ℕ → State → State × Result SetupError AdminServer
  give_up cfg pool s = (if cfg.own_pool then close_pool pool s else s, err migrate_failed)

  -- The server with its parts
  unfoldable pub assemble : Config → Source → Source → Option Source → AdminServer
  assemble cfg_ store_ sessions_ keys_ = record {
    cfg = cfg_;
    store = store_;
    sessions = sessions_;
    api_keys = keys_;
    upload_root =
        if cfg_.has_uploads
        then none
        else some (cfg_.upload_dir, cfg_.public_url ++ lit "/admin/api/files");
    secure = has_prefix (to_lower cfg_.public_url) (lit "https://");
  }

  -- From the API keys on, with a pool
  unfoldable pub setup_keys : Config → ℕ → Source → State → State × Result SetupError AdminServer
  unfolding give_up assemble
  setup_keys cfg pool sessions s =
      let (t, migrated) = migrate_keys pool s in
      if cfg.has_api_keys
      then (s, ok (assemble cfg (postgres pool) sessions (some given)))
      else if not migrated
      then give_up cfg pool t
      else (t, ok (assemble cfg (postgres pool) sessions (some (postgres pool))))

  -- From the sessions on, with a pool
  unfoldable pub setup_sessions : Config → ℕ → State → State × Result SetupError AdminServer
  unfolding setup_keys
  setup_sessions cfg pool s =
      let (t, migrated) = migrate_sessions pool s in
      if cfg.has_sessions
      then setup_keys cfg pool given s
      else if not migrated
      then give_up cfg pool t
      else setup_keys cfg pool (postgres pool) t

  -- From the store's migration on, with a pool
  unfoldable pub setup_store : Config → ℕ → State → State × Result SetupError AdminServer
  unfolding setup_sessions
  setup_store cfg pool s =
      let (t, migrated) = migrate_store pool s in
      if not migrated then give_up cfg pool t else setup_sessions cfg pool t

  -- The parts without a pool
  unfoldable pub setup_given : Config → AdminServer
  unfolding assemble
  setup_given cfg =
      assemble cfg given (if cfg.has_sessions then given else memory)
        (if cfg.has_api_keys then some given else none)

  -- With the pool of the configuration, or a new one
  unfoldable pub setup_pool : Config → Option ℕ → State → State × Result SetupError AdminServer
  unfolding setup_store
  setup_pool cfg (some pool) s = setup_store cfg pool s
  setup_pool cfg none s = elim (connect cfg.database_url s) [
    | none ↦ (s, err connect_failed)
    | some (pool, t) ↦ setup_store (record cfg { own_pool = true; pool = some pool }) pool t
  ]

  abbrev is_none : Option ℕ → Bool
  is_none none = true
  is_none (some _) = false

  -- `func New`
  unfoldable pub new_server : Config → State → State × Result SetupError AdminServer
  unfolding with_defaults setup_pool setup_given
  new_server cfg s =
      if not cfg.has_store && (cfg.database_url == [] && is_none cfg.pool)
      then (s, err store_or_url_required)
      else if not (cfg.database_url == []) && not (is_none cfg.pool)
      then (s, err url_and_pool)
      else if cfg.has_store
      then (s, ok (setup_given (with_defaults cfg)))
      else setup_pool (with_defaults cfg) cfg.pool s

  unfoldable pub close_own : Bool → Option ℕ → State → State
  close_own own none s = s
  close_own own (some pool) s = if own then close_pool pool s else s

  -- `func (s *AdminServer) Close`
  unfoldable pub close_server : AdminServer → State → State
  unfolding close_own
  close_server server s = close_own server.cfg.own_pool server.cfg.pool s
