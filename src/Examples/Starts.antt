-- ===== src/Examples/Starts.antt =====
-- The theorems on the start of the server, its configuration, its routes, its storage and its metrics.
use content_service.Prelude.{
  ◌∙◌, ℕ, ◌≡◌, refl, ap, String, true, List, [], ◌∷◌, none, some, length, sym, Bool-cases, inl, inr,
}
use content_service.Prelude.Int.{ℤ, pos, IsInt64}
use content_service.Prelude.Text.{◌+++◌, has_comma, NoComma-of_has_comma}
use content_service.Go.{Result, ok, err, plain, Exec, ◌>>=◌, on_error}
use content_service.World.{World, on_redis, on_disk}
use content_service.Http.{file}
use content_service.Auth.{Bytes}
use content_service.Redis.Scenes.{Keyspace}
use content_service.Redis.Ownership.{IsConsistent}
use content_service.Storage.{
  Reader, local_storage, local_save_file, local_download_file, create_local_dir, S3Client, failed,
  other_error,
}
use content_service.Storage.Build.{
  new_storage, build_local_storage, is_upper_of, upper_code, get_contents-save_file,
}
use content_service.Contents.{local_kind, get_contents}
use content_service.Upload.Service.{IpfsNode}
use mathlib.Core.Option
use content_service.Config.{
  Configuration, StorageConfig, RemoteStorage, allowed_types, trim_spaces, trim_left, trim_right,
}
use content_service.Config.Types.{listed, allowed_types-listed}
use content_service.Metrics.{
  Statsd, Agent, Clients, MetricsConfig, send_sample, build_segment_agent, make_agent,
  dd_client_for, build_dd_client, dcl_api_error, track_of,
}
use content_service.Metrics.Agents.{NeverFails, NeverPanics, make_agent-NeverFails}
use content_service.Metrics.Names.{method, metric_name_injective}
use content_service.Metrics.Uploads.{upload_event, tells, track_of-upload_event}
use content_service.Upload.Paths.{names_file}
use content_service.Upload.Cids.{is_cid_v0}
use content_service.Upload.Names.{NamesCids}
use content_service.Reachable.{here}
use content_service.Startup.{
  Components, Libraries, LeavesRedis, initialize_handler, new_redis_client, started-IsConsistent,
}
use content_service.Examples.Server.{server}
use content_service.Examples.Service.{
  Disk, files, node, wallet, land_api, service, in_order, node_v0,
}
use content_service.Examples.Runs.{request, no_files}
use content_service.Examples.Endpoints.{codec}

abbrev types : List String
types = "application/json" ∷ "image.*" ∷ []

allowed_types-listed_example : allowed_types (listed types) ≡ types
unfolding trim_spaces trim_left trim_right has_comma
allowed_types-listed_example = allowed_types-listed "application/json" ("image.*" ∷ []) (
  record { no_comma = NoComma-of_has_comma "application/json" refl; trimmed = refl },
  (record { no_comma = NoComma-of_has_comma "image.*" refl; trimmed = refl }, tt),
)

-- A statsd client that cannot send.
abbrev silent : Statsd (World Keyspace Disk) ℤ
silent = record { to_float = λ n. n; send_gauge = λ m v tags rate u. (err (plain "no agent"), u) }

abbrev clients : Clients (World Keyspace Disk) ℤ
clients = record {
  statsd_new = λ name w. (ok silent, w);
  analytics_new = λ key. record { enqueue = λ track u. (err (plain "queue is full"), u) };
}

abbrev reporting : MetricsConfig
reporting = record { enabled = true; app_name = "content.local"; analytics_key = "key" }

abbrev empty_world : World Keyspace Disk
empty_world = record { redis = λ key. none; disk = no_files }

abbrev reporter : Agent (World Keyspace Disk)
reporter = record {
  record_sample = send_sample silent [];
  record_upload = build_segment_agent in_order clients "key";
}

made_run : make_agent in_order clients reporting empty_world ≡ (ok reporter, empty_world)
unfolding make_agent dd_client_for build_dd_client ◌>>=◌
made_run = refl

calm : NeverPanics clients
calm = record {
  gauges = λ app name value rate tags s t u client new h.
      let same : silent ≡ client = cc in
      let run =
        ap (λ (c : Statsd (World Keyspace Disk) ℤ). (c.send_gauge name value tags rate s).0) same
        ∙ h in
      cc;
  tracks = λ key track s h. cc;
}

make_agent-NeverFails_example : NeverFails reporter
make_agent-NeverFails_example =
    make_agent-NeverFails in_order clients calm reporting empty_world empty_world reporter made_run

metric_name_injective_example :
    (method (dcl_api_error (pos 404)) ≡ method (dcl_api_error (pos 404)))
    × ((a b : ℤ)
        → IsInt64 a
        → IsInt64 b
        → dcl_api_error (pos 404) ≡ dcl_api_error a
        → dcl_api_error (pos 404) ≡ dcl_api_error b
        → a ≡ b)
metric_name_injective_example =
    metric_name_injective (dcl_api_error (pos 404)) (dcl_api_error (pos 404)) refl

track_of-upload_event_example :
    ((cid path : String)
      → tells (track_of in_order (upload_event request)).files cid path
        ≡ names_file request.manifest cid path)
    × ((track_of in_order (upload_event request)).cid ≡ "QmRoot")
    × ((track_of in_order (upload_event request)).user_id ≡ "0xkey")
    × ((track_of in_order (upload_event request)).parcels ≡ request.scene.scene.parcels)
    × ((track_of in_order (upload_event request)).origin ≡ "cli")
track_of-upload_event_example = track_of-upload_event in_order request

abbrev no_bucket : RemoteStorage → S3Client Disk
no_bucket conf = record {
  object_url = λ cid. conf.url +++ cid;
  upload = λ name r kind d. (ok (failed (other_error "no bucket")), d);
  download = λ cid path d. (ok (failed (other_error "no bucket")), d);
  head_object = λ cid d. (ok (failed (other_error "no bucket")), d);
}

abbrev storage_conf : StorageConfig
storage_conf = record {
  storage_type = "local";
  remote_config = record { bucket = ""; acl = ""; url = "" };
  local_path = "";
}

built_run :
    new_storage files no_bucket storage_conf no_files
    ≡ (ok (local_kind, local_storage files ""), no_files)
unfolding new_storage build_local_storage create_local_dir is_upper_of upper_code ◌>>=◌
built_run = refl

abbrev three_bytes : Reader
three_bytes = ok (1 ∷ 2 ∷ 3 ∷ [])

abbrev saved : Result String × Disk
saved = local_save_file files "" "Qm3" three_bytes "text/plain" no_files

saved_run : saved ≡ (ok "Qm3", saved.1)
unfolding local_save_file ◌>>=◌
saved_run = refl

stat_files :
    (p : String) (x : Disk) (b : Bytes)
    → x p ≡ some b
    → (n : ℕ) × (y : Disk) × (files.stat_size p x ≡ (ok (some n), y))
stat_files p x b h = (length b, x, ap (λ o. (ok (Option.map length o), x)) h)

get_contents-save_file_example :
    (u : Disk) × (get_contents server (local_storage files "") files local_kind "Qm3" saved.1
      ≡ (ok (record { status = 200; body = file "Qm3" }), u))
unfolding is_upper_of upper_code
get_contents-save_file_example =
    get_contents-save_file files no_bucket server storage_conf no_files no_files no_files saved.1
      local_kind (local_storage files "") "Qm3" three_bytes "text/plain" "Qm3" stat_files refl refl
      built_run saved_run

abbrev fetched : Result (Unit {0}) × Disk
fetched = local_download_file files "" "Qm3" "tmp/copy" saved.1

abbrev libraries : Libraries Disk
libraries = record {
  crypto = wallet;
  dcl_client = λ url. land_api;
  new_rpc = λ url. service.rpc;
  parses = λ c. true;
  verifies = λ c. true;
  codec = codec;
}

abbrev conf : Configuration
conf = record {
  server = record { port = pos 8000; host = "0.0.0.0" };
  storage = storage_conf;
  redis = record { address = "localhost:6379"; password = ""; db = pos 0 };
  land_url = "";
  log_level = "DEBUG";
  metrics = reporting;
  allowed_content_types = types;
  limits = record { parcel_size_limit = pos 1000; parcel_assets_limit = pos 10 };
  workdir = "tmp";
  upload_request_ttl = pos 600;
  rpc_url = "";
}

abbrev start_node : Exec Disk (IpfsNode Disk)
start_node d = (ok node, d)

abbrev components : Components Keyspace Disk
components = record {
  storage_kind = local_kind;
  storage = local_storage files "";
  node = node;
  agent = reporter;
}

abbrev started : Result (Components Keyspace Disk) × World Keyspace Disk
started =
    initialize_handler server files in_order clients no_bucket start_node libraries conf empty_world

started_run : started ≡ (ok components, started.1)
unfolding initialize_handler new_redis_client make_agent dd_client_for build_dd_client new_storage
    build_local_storage create_local_dir is_upper_of upper_code ◌>>=◌ on_error on_redis on_disk
started_run = refl

quiet : LeavesRedis server files in_order clients no_bucket start_node libraries
unfolding make_agent dd_client_for build_dd_client ◌>>=◌
quiet = record {
  agent_leaves = λ c w w' agent h. elim (Bool-cases c.metrics.enabled) [
    | inl on ↦ let h' = rw on at h in ap (λ x. x.1.redis) (sym h')
    | inr off ↦ let h' = rw off at h in ap (λ x. x.1.redis) (sym h')
  ];
}

started-IsConsistent_example : IsConsistent started.1.redis × NamesCids is_cid_v0 started.1.redis
started-IsConsistent_example =
    started-IsConsistent server files in_order clients no_bucket start_node libraries quiet conf
      empty_world started.1 started.1 components node_v0
      (record { owned = λ c p xs h m. cc; listed = λ c p xs h m. cc; refers = λ p c q h. cc })
      (λ p c q h. cc) started_run here
