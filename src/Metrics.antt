-- ===== src/Metrics.antt =====
-- metrics/agent.go: the agent that reports to Datadog and Segment. The two clients are parameters;
-- log lines are left out. A method call of the ddClient interface is a value of `Sample`.
pub mod Agents
pub mod Names
pub mod Uploads
use content_service.Prelude.{
  ℕ, suc, ◌/◌, String, Bool, true, false, List, [], ◌∷◌, map, Map, MapRange, ◌==◌, if◌then◌else◌,
}
use content_service.Prelude.Int.{ℤ, pos, negsuc, sub_ℕ}
use content_service.Prelude.Decimal.{show_ℤ}
use content_service.Prelude.Text.{◌+++◌}
use content_service.Go.{Exec, pure, ◌>>=◌, on_error}

-- A duration is a number of nanoseconds.
pub data Sample : Type 0 where
  bytes_stored : ℤ → Sample
  bytes_retrieved : ℤ → Sample
  retrieve_time : ℤ → Sample
  storage_time : ℤ → Sample
  upload_req_size : ℤ → Sample
  upload_request_files : ℤ → Sample
  manifest_size : ℤ → Sample
  upload_process_time : ℤ → Sample
  upload_request_parse_time : ℤ → Sample
  is_member_time : ℤ → Sample
  dcl_response_time : ℤ → Sample
  upload_request_validation_time : ℤ → Sample
  get_parcel_metadata_time : ℤ → Sample
  get_parcel_content_time : ℤ → Sample
  store_content_time : ℤ → Sample
  store_metadata_time : ℤ → Sample
  dcl_api_error : ℤ → Sample

-- d.Nanoseconds() / int64(time.Millisecond), which rounds towards zero.
unfoldable pub to_millis : ℤ → ℤ
to_millis (pos n) = pos (n / 1000000)
to_millis (negsuc n) = sub_ℕ 0 (suc n / 1000000)

unfoldable pub metric_name : Sample → String
metric_name (bytes_stored n) = "FileStored.bytes"
metric_name (bytes_retrieved n) = "FileRetrieved.bytes"
metric_name (retrieve_time t) = "StorageDownloadTime.msec.call"
metric_name (storage_time t) = "StorageTime.msec.call"
metric_name (upload_req_size n) = "UploadRequestSize.bytes"
metric_name (upload_request_files n) = "UploadedRequestFiles"
metric_name (manifest_size n) = "ManifestRequestEntries"
metric_name (upload_process_time t) = "UploadProcessTime.msec.call"
metric_name (upload_request_parse_time t) = "UploadParseTime.msec.call"
metric_name (is_member_time t) = "IsMemberDuration.msec.call"
metric_name (dcl_response_time t) = "DCLResponseTime.msec.call"
metric_name (upload_request_validation_time t) = "UploadValidationTime.msec.call"
metric_name (get_parcel_metadata_time t) = "GetParcelMetadata.msec.call"
metric_name (get_parcel_content_time t) = "GetParcelContent.msec.call"
metric_name (store_content_time t) = "StoreContent.msec.call"
metric_name (store_metadata_time t) = "StoreMetadata.msec.call"
metric_name (dcl_api_error status) = "DecentralandAPIError" +++ show_ℤ status

-- The number that is sent, before its conversion to float64.
unfoldable pub metric_value : Sample → ℤ
unfolding to_millis
metric_value (bytes_stored n) = n
metric_value (bytes_retrieved n) = n
metric_value (retrieve_time t) = to_millis t
metric_value (storage_time t) = to_millis t
metric_value (upload_req_size n) = n
metric_value (upload_request_files n) = n
metric_value (manifest_size n) = n
metric_value (upload_process_time t) = to_millis t
metric_value (upload_request_parse_time t) = to_millis t
metric_value (is_member_time t) = to_millis t
metric_value (dcl_response_time t) = to_millis t
metric_value (upload_request_validation_time t) = to_millis t
metric_value (get_parcel_metadata_time t) = to_millis t
metric_value (get_parcel_content_time t) = to_millis t
metric_value (store_content_time t) = to_millis t
metric_value (store_metadata_time t) = to_millis t
metric_value (dcl_api_error status) = pos 1

-- statsd.Client: Gauge with a name, a value, tags and a rate. `to_float` is float64().
pub record Statsd (S F : Type 0) : Type 0 where
  pub to_float : ℤ → F
  pub send_gauge : String → F → List String → F → Exec S Unit

pub record ContentOccurrence : Type 0 where
  pub hash : String
  pub files : List String

-- analytics.Track, with its properties.
pub record Track : Type 0 where
  pub user_id : String
  pub event : String
  pub files : List ContentOccurrence
  pub parcels : List String
  pub cid : String
  pub origin : String

pub record Analytics (S : Type 0) : Type 0 where
  pub enqueue : Track → Exec S Unit

-- An upload as the agent is told of it.
pub record UploadEvent : Type 0 where
  pub upload_id : String
  pub uploader : String
  pub parcels : List String
  pub files : Map (List String)
  pub origin : String

pub record Agent (S : Type 0) : Type 0 where
  pub record_sample : Sample → Exec S Unit
  pub record_upload : UploadEvent → Exec S Unit

-- config.Metrics
pub record MetricsConfig : Type 0 where
  pub enabled : Bool
  pub app_name : String
  pub analytics_key : String

abbrev pub content_occurrence : String × List String → ContentOccurrence
content_occurrence entry = record { hash = entry.0; files = entry.1 }

unfoldable pub track_of : MapRange → UploadEvent → Track
track_of order e = record {
  user_id = e.uploader;
  event = "Content Upload";
  files = map content_occurrence (order.range (List String) e.files);
  parcels = e.parcels;
  cid = e.upload_id;
  origin = e.origin;
}

-- The constructors of the two clients: statsd.New with a namespace, and analytics.New.
pub record Clients (S F : Type 0) : Type 0 where
  pub statsd_new : String → Exec S (Statsd S F)
  pub analytics_new : String → Analytics S

module _ {S : Type 0} where
  -- ddClientDummy
  unfoldable pub drop_sample : Sample → Exec S Unit
  drop_sample sample = pure tt

  unfoldable pub enqueue_upload : MapRange → Analytics S → UploadEvent → Exec S Unit
  enqueue_upload order client e = on_error (client.enqueue (track_of order e)) λ x. pure tt

  -- segmentDummy
  unfoldable pub drop_upload : UploadEvent → Exec S Unit
  drop_upload e = pure tt

module _ {S F : Type 0} where
  -- A gauge that cannot be sent is logged.
  unfoldable pub gauge : Statsd S F → List String → String → ℤ → Exec S Unit
  gauge client tags metric value =
      on_error
        (client.send_gauge ("." +++ metric) (client.to_float value) tags (client.to_float (pos 1)))
        λ e. pure tt

  unfoldable pub send_sample : Statsd S F → List String → Sample → Exec S Unit
  send_sample client tags sample = gauge client tags (metric_name sample) (metric_value sample)

  unfoldable pub build_dd_client : Clients S F → String → Exec S (Sample → Exec S Unit)
  build_dd_client clients app_name = do
    client ← clients.statsd_new app_name
    pure (send_sample client [])

  unfoldable pub build_segment_agent : MapRange → Clients S F → String → UploadEvent → Exec S Unit
  build_segment_agent order clients write_key =
      if write_key == ""
      then drop_upload
      else enqueue_upload order (clients.analytics_new write_key)

  unfoldable pub dd_client_for : Clients S F → MetricsConfig → Exec S (Sample → Exec S Unit)
  dd_client_for clients conf =
      if conf.enabled then build_dd_client clients conf.app_name else pure drop_sample

  -- Make
  unfoldable pub make_agent : MapRange → Clients S F → MetricsConfig → Exec S (Agent S)
  make_agent order clients conf = do
    dd ← dd_client_for clients conf
    pure (record {
      record_sample = dd;
      record_upload = build_segment_agent order clients conf.analytics_key;
    })
