-- ===== src/Startup.antt =====
-- The start of the server: InitializeHandler of main.go and NewRedisClient of data/redis.go. The
-- constructors of the IPFS node and of the S3 client are parameters, and so is the environment of
-- viper; log.Fatal ends the process, which is an error here.
use content_service.Prelude.{
  ◌≡◌, refl, sym, ap, ◌∙◌, String, Bool, some, MapRange, ◌==◌, if◌then◌else◌,
}
use content_service.Go.{plain, ok, Exec, pure, raise, ◌>>=◌, ◌>>◌, on_error}
use content_service.Go.Inversion.{>>=-eq-ok, pure-eq-ok, on_error-raise-eq-ok}
use content_service.World.{World, on_redis, on_disk, on_redis-eq-ok, on_disk-eq-ok}
use content_service.Redis.{RedisServer, str}
use content_service.Redis.Keys.{is_parcel_key, starts_number}
use content_service.Redis.Ownership.{IsConsistent, IsConsistent-write, plain-ne-parcel}
use content_service.Upload.Cids.{GivesCidsV0, is_cid_v0}
use content_service.Upload.Names.{NamesCids}
use content_service.Auth.{Crypto, LandApi}
use content_service.Rpc.{EthClient}
use content_service.Upload.Request.{UploadHandler, Codec, new_content_type_filter}
use content_service.Upload.Service.{UploadService, IpfsNode}
use content_service.Contents.{StorageKind}
use content_service.Storage.{FileSystem, Storage, S3Client}
use content_service.Storage.Build.{new_storage}
use content_service.Config.{Configuration, RemoteStorage}
use content_service.Metrics.{Agent, Clients, make_agent}
use content_service.Reachable.{Reach, Reach-IsConsistent, Reach-NamesCids}

-- routes.Config: what the handlers are made of.
pub record Components (R D : Type 0) : Type 0 where
  pub storage_kind : StorageKind
  pub storage : Storage D
  pub node : IpfsNode D
  pub agent : Agent (World R D)

-- The packages that the handlers call, and the constructors of the land API's client and of the
-- contract's.
pub record Libraries (D : Type 0) : Type 0 where
  pub crypto : Crypto
  pub dcl_client : String → LandApi D
  pub new_rpc : String → EthClient D
  pub parses : String → Bool
  pub verifies : String → Bool
  pub codec : Codec

module _ {R : Type 0} (srv : RedisServer R) where
  -- NewRedisClient writes a key, to see whether the server is there.
  unfoldable pub new_redis_client : Exec R Unit
  new_redis_client = srv.set "key" "value"

module _ {R D F : Type 0} (srv : RedisServer R) (fs : FileSystem D) (order : MapRange)
    (clients : Clients (World R D) F) (new_s3 : RemoteStorage → S3Client D)
    (init_ipfs_node : Exec D (IpfsNode D)) (lib : Libraries D) where
  open srv use {value_at}
  open lib use {crypto, dcl_client, new_rpc, parses, verifies, codec}

  unfoldable pub initialize_handler : Configuration → Exec (World R D) (Components R D)
  initialize_handler conf = do
    agent ←
        on_error (make_agent order clients conf.metrics)
          λ e. raise (plain "Error initializing metrics agent")
    on_error (on_redis (new_redis_client srv)) λ e. raise (plain "Error initializing Redis client")
    node ← on_error (on_disk init_ipfs_node) λ e. raise (plain "Error initializing IPFS node")
    built ← on_disk (new_storage fs new_s3 conf.storage)
    pure (record { storage_kind = built.0; storage = built.1; node = node; agent = agent })

  -- Making a client of the metrics does not touch Redis.
  pub record LeavesRedis : Type 0 where
    pub agent_leaves :
        (conf : Configuration) (w w' : World R D) (agent : Agent (World R D))
        → make_agent order clients conf.metrics w ≡ (ok agent, w')
        → w'.redis ≡ w.redis

  -- The one key that the start writes.
  initialize_handler-writes :
      (quiet : LeavesRedis) (conf : Configuration) (w w' : World R D) (c : Components R D)
      → initialize_handler conf w ≡ (ok c, w')
      → (j : String)
      → value_at w'.redis j ≡ (if "key" == j then some (str "value") else value_at w.redis j)
  unfolding initialize_handler new_redis_client
  initialize_handler-writes quiet conf w w' c h j =
      let (agent, w1, e1, k1) =
        >>=-eq-ok
          (on_error (make_agent order clients conf.metrics)
            λ e. raise (plain "Error initializing metrics agent"))
          _ w h in
      let made =
        on_error-raise-eq-ok (make_agent order clients conf.metrics)
          (λ e. plain "Error initializing metrics agent") w e1 in
      let kept1 = quiet.agent_leaves conf w w1 agent made in
      let (_, w2, e2, k2) =
        >>=-eq-ok
          (on_error (on_redis (new_redis_client srv))
            λ e. raise (plain "Error initializing Redis client"))
          _ w1 k1 in
      let ran =
        on_error-raise-eq-ok (on_redis (new_redis_client srv))
          (λ e. plain "Error initializing Redis client") w1 e2 in
      let (set_run, _) = on_redis-eq-ok (new_redis_client srv) w1 w2 tt ran in
      let (node, w3, e3, k3) =
        >>=-eq-ok
          (on_error (on_disk init_ipfs_node) λ e. raise (plain "Error initializing IPFS node")) _ w2
          k2 in
      let started =
        on_error-raise-eq-ok (on_disk init_ipfs_node) (λ e. plain "Error initializing IPFS node") w2
          e3 in
      let (_, kept3) = on_disk-eq-ok init_ipfs_node w2 w3 node started in
      let (built, w4, e4, k4) = >>=-eq-ok (on_disk (new_storage fs new_s3 conf.storage)) _ w3 k3 in
      let (_, kept4) = on_disk-eq-ok (new_storage fs new_s3 conf.storage) w3 w4 built e4 in
      let ends = (pure-eq-ok _ c w4 w' k4).1 in
      ap (λ (x : World R D). value_at x.redis j) (sym ends)
      ∙ ap (λ x. value_at x j) (kept4 ∙ kept3)
      ∙ srv.set_ok "key" "value" w1.redis w2.redis set_run j
      ∙ ap (λ x. if "key" == j then some (str "value") else value_at x j) kept1

  -- AddRoutes: the upload service and the upload handler.
  unfoldable pub upload_service : Configuration → Components R D → UploadService R D
  upload_service conf c = record {
    storage = c.storage;
    redis = srv;
    ipfs_node = c.node;
    crypto = crypto;
    land = dcl_client conf.land_url;
    parcel_size_limit = conf.limits.parcel_size_limit;
    workdir = conf.workdir;
    rpc = new_rpc conf.rpc_url;
    fs = fs;
    parses = parses;
    verifies = verifies;
    order = order;
  }

  unfoldable pub upload_handler : Configuration → UploadHandler
  upload_handler conf = record {
    codec = codec;
    filter_pattern = new_content_type_filter conf.allowed_content_types;
    assets_limit = conf.limits.parcel_assets_limit;
    time_to_live = conf.upload_request_ttl;
    order = order;
  }

  -- If making the metrics clients leaves Redis alone and the IPFS node computes CIDs of version 0,
  -- then in every state that requests lead to, none of which stops on the way (the steps of Step),
  -- after a start that succeeded on a keyspace that was consistent and in which the parcels' keys named
  -- such CIDs, as in the empty one, both hold.
  pub started-IsConsistent :
      (quiet : LeavesRedis) (conf : Configuration) (w w' v : World R D) (c : Components R D)
      → GivesCidsV0 c.node
      → IsConsistent (value_at w.redis)
      → NamesCids is_cid_v0 (value_at w.redis)
      → initialize_handler conf w ≡ (ok c, w')
      → Reach (upload_handler conf) (upload_service conf c) w' v
      → IsConsistent (value_at v.redis) × NamesCids is_cid_v0 (value_at v.redis)
  unfolding upload_service is_parcel_key starts_number
  started-IsConsistent quiet conf w w' v c v0 k names h run =
      let write = initialize_handler-writes quiet conf w w' c h in
      let us = upload_service conf c in
      (
        Reach-IsConsistent (upload_handler conf) us v0
            (IsConsistent-write "key" (str "value") k refl (λ xs e. cc) write) run,
        Reach-NamesCids (upload_handler conf) us v0
            (λ p x parcel e.
              names p x parcel (sym (write p ∙ rw (plain-ne-parcel "key" p refl parcel) refl) ∙ e))
            run,
      )
