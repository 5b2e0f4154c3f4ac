-- ===== src/Config.antt =====
-- config/config.go: the configuration and the environment variables that overwrite it. viper, which
-- reads the file and decodes it, and the environment are parameters.
pub mod Types
use Prim.Native.Char.{code}
use Prim.Native.String.{String}
use content_service.Prelude.{Bool, List, [], ◌∷◌, map, nat_eq, ◌==◌, if◌then◌else◌}
use content_service.Prelude.Int.{ℤ}
use content_service.Prelude.Text.{◌+++◌, split_comma}
use content_service.Go.{
  GoError, Result, Exec, raise, pure, lift, ◌>>=◌, ◌>>◌, on_error, plain, error_text,
}
use content_service.Metrics.{MetricsConfig}

pub record RemoteStorage : Type 0 where
  pub bucket : String
  pub acl : String
  pub url : String

pub record StorageConfig : Type 0 where
  pub storage_type : String
  pub remote_config : RemoteStorage
  pub local_path : String

pub record RedisConfig : Type 0 where
  pub address : String
  pub password : String
  pub db : ℤ

pub record Limits : Type 0 where
  pub parcel_size_limit : ℤ
  pub parcel_assets_limit : ℤ

pub record ServerConfig : Type 0 where
  pub port : ℤ
  pub host : String

pub record Configuration : Type 0 where
  pub server : ServerConfig
  pub storage : StorageConfig
  pub redis : RedisConfig
  pub land_url : String
  pub log_level : String
  pub metrics : MetricsConfig
  pub allowed_content_types : List String
  pub limits : Limits
  pub workdir : String
  pub upload_request_ttl : ℤ
  pub rpc_url : String

-- The keys of the configuration and the variables that they are bound to.
abbrev pub env_bindings : List (String × String)
env_bindings =
    ("server.port", "SERVER_PORT")
    ∷ ("server.host", "SERVER_HOST")
    ∷ ("storage.storageType", "STORAGE_TYPE")
    ∷ ("storage.remoteConfig.bucket", "AWS_S3_BUCKET")
    ∷ ("storage.remoteConfig.url", "AWS_S3_URL")
    ∷ ("storage.remoteConfig.acl", "AWS_S3_ACL")
    ∷ ("storage.localPath", "LOCAL_STORAGE_PATH")
    ∷ ("redis.address", "REDIS_ADDRESS")
    ∷ ("redis.password", "REDIS_PASSWORD")
    ∷ ("redis.db", "REDIS_DB")
    ∷ ("decentralandapi.landurl", "DCL_API")
    ∷ ("logLevel", "LOG_LEVEL")
    ∷ ("metrics.appName", "METRICS_APP")
    ∷ ("metrics.analyticsKey", "ANALYTICS_KEY")
    ∷ ("metrics.enabled", "METRICS_ENABLED")
    ∷ ("limits.parcelSizeLimit", "LIMIT_PARCEL_SIZE")
    ∷ ("limits.parcelAssetsLimit", "LIMIT_PARCEL_ASSETS")
    ∷ ("workdir", "WORK_DIR")
    ∷ ("uploadRequestTTL", "UPLOAD_TTL")
    ∷ ("rpcconnection.url", "RPCCONNECTION_URL")
    ∷ []

-- strings.Trim(t, " ")
unfoldable pub trim_left : String → String
trim_left String.[] = ""
trim_left (String.◌∷◌ c s) = if nat_eq (code c) 32 then trim_left s else String.◌∷◌ c s

-- A character goes in front of a text whose trailing spaces are gone: a space before nothing goes too.
abbrev push_trimmed : String → String → String
push_trimmed c s = if s == "" then (if c == " " then "" else c) else c +++ s

unfoldable pub trim_right : String → String
trim_right String.[] = ""
trim_right (String.◌∷◌ c s) = push_trimmed (String.◌∷◌ c String.[]) (trim_right s)

unfoldable pub trim_spaces : String → String
trim_spaces t = trim_right (trim_left t)

unfoldable pub allowed_types : String → List String
allowed_types content_env = map trim_spaces (split_comma content_env)

-- A viper: its settings are those of the file, of the variables that are bound and of Set.
pub record Viper (V : Type 0) : Type 0 where
  pub read_in_config : String → Exec V Unit
  pub bind_env : String → String → V → V
  pub set : String → List String → V → V
  pub unmarshal : V → Result Configuration

module _ {V : Type 0} (viper : Viper V) (getenv : String → String) where
  abbrev pub bind_all : List (String × String) → V → V
  bind_all [] v = v
  bind_all ((key, name) ∷ bindings) v = bind_all bindings (viper.bind_env key name v)

  abbrev set_types : String → V → V
  set_types content_env v =
      if content_env == "" then v else viper.set "allowedContentTypes" (allowed_types content_env) v

  unfoldable pub read_env_variables : V → V
  read_env_variables v = set_types (getenv "ALLOWED_TYPES") (bind_all env_bindings v)

  abbrev update : (V → V) → Exec V Unit
  update f v = (Result.ok tt, f v)

  abbrev decoded : Exec V Configuration
  decoded v = (viper.unmarshal v, v)

  -- log.Fatalf ends the process.
  unfoldable pub get_config : String → Exec V Configuration
  get_config name = do
    on_error (viper.read_in_config name)
        λ e. raise (plain ("Error reading config file, " +++ error_text e))
    update read_env_variables
    on_error decoded
        λ e. raise (plain ("Unable to decode config file into struct, " +++ error_text e))
