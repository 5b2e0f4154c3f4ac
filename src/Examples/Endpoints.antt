-- ===== src/Examples/Endpoints.antt =====
-- The theorems on the HTTP endpoints, on the upload and the keyspace of the other runs.
use content_service.Prelude.{
  ◌≡◌, ◌==◌, if◌then◌else◌, All, refl, String, Bool, true, false, List, [], ◌∷◌, none, some, Map,
  arith, ℕ, ◌⊎◌,
}
use content_service.Prelude.Int.{ℤ, pos, ◌+ℤ◌, ◌*ℤ◌, wrap64}
use content_service.Prelude.Maps.{lookup, insert}
use content_service.Prelude.Text.{has_suffix, contains_text, split_comma, has_comma}
use content_service.Prelude.Decimal.{show_ℕ, show_ℤ, atoi}
use content_service.Go.{
  Result, ok, err, invalid_argument, not_found, on_error, ◌>>=◌, inspect, for_each,
}
use content_service.World.{World, on_redis, on_disk}
use content_service.Redis.{str}
use content_service.Redis.Client
use content_service.Redis.Keys.{first_code}
use content_service.Redis.Scenes.{Keyspace}
use content_service.Redis.Ownership.{IsConsistent}
use content_service.Auth.{
  with_prefix, recovery_id, is_signature_valid, has_access, do_get, get_parcel_access_data,
  parse_parcel, can_modify_parcel, can_modify_each, user_can_modify_parcels,
}
use content_service.Storage.{local_save_file}
use content_service.Upload.{
  UploadRequest, group_from, group_file_paths_by_cid, scene_cid_of, metadata_fields,
  log_upload_request,
}
use content_service.Upload.Service.{
  check_cid_format, validate_signature, validate_key_access, estimate_from, estimate_request_size,
  max_request_size, validate_request_size, save_request_file, validate_cid, consolidate_file,
  consolidate_content, with_cleanup, clean_up_tmp_file, calculate_root_cid, check_root,
  validate_content_cid, save_uploaded, record_path, record_file, process_uploaded_files,
  store_parcel, store_parcels_information, record_scene, validate_upload, process_upload,
}
use content_service.Upload.Validation.{IsAccepted}
use content_service.Upload.Scenes.{process_upload-IsConsistent}
use content_service.Examples.Server.{server}
use content_service.Examples.Service.{Disk, service, in_order, node_v0}
use content_service.Http.{Reply, json, empty, error_body}
use content_service.Mappings.{
  Scene, GetScenesParams, GetMappingsParams, get_mappings, get_scenes, scene_cids, scenes_of,
  all_scenes, scenes_in,
}
use content_service.Mappings.Info.{get_info, get_parcel_metadata_reply}
use content_service.Mappings.ReadOnly.{endpoints-read}
use content_service.Mappings.Listing.{get_scenes-owned}
use content_service.Mappings.Corners.{get_mappings-parcel_id}
use content_service.Contents.{
  check_content_status, statuses_of, is_uploaded, check_content_in_storage,
}
use content_service.Contents.Recording.{IsRecorded, IsRecording}
use content_service.Contents.Status.{check_content_status-IsRecorded}
use content_service.Upload.Request.{
  Form, Codec, HttpRequest, UploadHandler, has_request_expired, is_allowed, validate_headers,
  validate_content_types, parse_scene_metadata, get_metadata, parse_scene_json_file, get_scene,
  validate_entries, parse_files_metadata, get_manifest_content, max_elements, parse_metadata,
  parse_manifest, parse_scene, parse_request,
}
use content_service.Upload.Parsing.{IsParsed}
use content_service.Upload.Handler.{upload_content}
use content_service.Upload.Status.{
  upload_content-IsAccepted, upload_content-unparsed, upload_content-without_metadata,
}
use content_service.Parcels.{parcel_id, rect_to_parcels, minmax, rect_size, column, columns}
use content_service.Prelude.Text.{trim_prefix}
use content_service.Prelude.Int.{◌-ℤ◌}
use content_service.Storage.{local_file_size, local_storage}
use content_service.Examples.Service.{files}
use content_service.Examples.Runs.{
  request, uploads, world, old_run, older_scene-IsConsistent, upload_run,
}

abbrev pub codec : Codec
codec = record {
  decode_metadata = λ text. some (record request.metadata { root_cid = "" });
  decode_manifest = λ text. some (some request.manifest);
  decode_scene = λ file. some request.scene;
  valid_metadata = λ m. true;
  entry_error = λ m. none;
  valid_scene = λ sce. true;
  request_error = λ r. none;
  matches = λ pattern t. ok true;
}

abbrev pub handler : UploadHandler
handler = record {
  codec = codec;
  filter_pattern = ".*";
  assets_limit = pos 10;
  time_to_live = pos 600;
  order = in_order;
}

abbrev pub post : HttpRequest
post = record {
  form = ok (record {
    values = ("metadata", "{...}" ∷ []) ∷ ("QmRoot", "[...]" ∷ []) ∷ [];
    files = uploads;
  });
  origin = "cli";
}

abbrev pub now : ℤ
now = pos 1500000010

abbrev pub posted : Result (Reply Unit) × World Keyspace Disk
posted = upload_content handler service now post world

pub posted_run : posted ≡ (ok (record { status = 200; body = empty }), posted.1)
unfolding on_error ◌>>=◌ inspect for_each on_redis on_disk group_from group_file_paths_by_cid
    scene_cid_of metadata_fields log_upload_request check_cid_format validate_signature
    validate_key_access estimate_from estimate_request_size max_request_size validate_request_size
    save_request_file validate_cid consolidate_file consolidate_content with_cleanup
    clean_up_tmp_file calculate_root_cid check_root validate_content_cid save_uploaded record_path
    record_file process_uploaded_files store_parcel store_parcels_information record_scene
    validate_upload process_upload Client.store_content Client.store_metadata Client.set_key
    Client.add_cid Client.get_parcel_cid Client.set_processed_parcel Client.old_scenes
    Client.delete_scene Client.update_parcel Client.push_scene Client.replace_scenes
    Client.set_scene_parcels Client.save_root_cid_scene_cid local_save_file with_prefix recovery_id
    is_signature_valid has_access do_get get_parcel_access_data parse_parcel can_modify_parcel
    can_modify_each user_can_modify_parcels show_ℕ show_ℤ atoi ◌+ℤ◌ ◌*ℤ◌ wrap64 lookup insert
    has_suffix contains_text split_comma has_comma first_code has_request_expired is_allowed
    validate_headers validate_content_types parse_scene_metadata get_metadata parse_scene_json_file
    get_scene validate_entries parse_files_metadata get_manifest_content max_elements parse_metadata
    parse_manifest parse_scene parse_request upload_content trim_prefix ◌-ℤ◌
posted_run = refl

upload_content-IsAccepted_example :
    (r : UploadRequest) × IsParsed handler now post r
    × IsAccepted service r
    × (process_upload service r world ≡ (ok tt, posted.1))
upload_content-IsAccepted_example =
    upload_content-IsAccepted handler service now post world posted.1
      (record { status = 200; body = empty }) posted_run refl

abbrev pub late : ℤ
late = pos 1500009999

pub late_run :
    (parse_request handler {S = World Keyspace Disk} late post world).0
    ≡ err (invalid_argument "expired request")
unfolding ◌>>=◌ on_error has_request_expired parse_scene_metadata get_metadata parse_metadata
    parse_request trim_prefix lookup ◌-ℤ◌ ◌+ℤ◌ wrap64
late_run = refl

upload_content-unparsed_example :
    upload_content handler service late post world
    ≡ (ok (record { status = 400; body = error_body "expired request" }), world)
upload_content-unparsed_example =
    upload_content-unparsed handler service late post world (invalid_argument "expired request")
      late_run

abbrev pub rectangle : GetScenesParams
rectangle = record { x1 = pos 7; y1 = pos 7; x2 = pos 7; y2 = pos 7 }

abbrev pub corners : GetMappingsParams
corners = record { nw = "7,7"; se = "7,7" }

endpoints-read_example :
    ((get_mappings server in_order (some corners) old_run.1).1 ≡ old_run.1)
    × ((get_scenes server in_order (some rectangle) old_run.1).1 ≡ old_run.1)
    × ((get_info server in_order "QmOld" old_run.1).1 ≡ old_run.1)
    × ((get_parcel_metadata_reply server in_order
          (some (record { x = pos 7; y = pos 7 }))
          old_run.1).1
        ≡ old_run.1)
endpoints-read_example =
    endpoints-read server in_order (some corners) (some rectangle) "QmOld"
      (some (record { x = pos 7; y = pos 7 })) old_run.1

get_mappings-parcel_id_example :
    get_mappings server in_order (some (record { nw = "1,5"; se = "2,3" })) old_run.1
    ≡ get_mappings server in_order (some (record { nw = "1,1"; se = "2,2" })) old_run.1
unfolding parcel_id show_ℤ show_ℕ
get_mappings-parcel_id_example =
    get_mappings-parcel_id server in_order (pos 1) (pos 5) (pos 2) (pos 3) old_run.1 (omega arith)
      (omega arith)

-- The keyspace after the upload.
abbrev uploaded : Keyspace
uploaded = (process_upload service request world).1.redis

uploaded-IsConsistent : IsConsistent uploaded
uploaded-IsConsistent =
    process_upload-IsConsistent service node_v0 request world
      (process_upload service request world).1 older_scene-IsConsistent upload_run

abbrev listed : List Scene
listed =
    record { parcel_id = "1,3"; root_cid = "QmRoot"; scene_cid = "Qm3" }
    ∷ record { parcel_id = "1,2"; root_cid = "QmRoot"; scene_cid = "Qm3" }
    ∷ []

abbrev column_of_two : GetScenesParams
column_of_two = record { x1 = pos 1; y1 = pos 3; x2 = pos 1; y2 = pos 2 }

scenes_run :
    get_scenes server in_order (some column_of_two) uploaded
    ≡ (ok (record { status = 200; body = json listed }), uploaded)
unfolding on_error ◌>>=◌ inspect for_each on_redis on_disk group_from group_file_paths_by_cid
    scene_cid_of metadata_fields log_upload_request check_cid_format validate_signature
    validate_key_access estimate_from estimate_request_size max_request_size validate_request_size
    save_request_file validate_cid consolidate_file consolidate_content with_cleanup
    clean_up_tmp_file calculate_root_cid check_root validate_content_cid save_uploaded record_path
    record_file process_uploaded_files store_parcel store_parcels_information record_scene
    validate_upload process_upload Client.store_content Client.store_metadata Client.set_key
    Client.add_cid Client.get_parcel_cid Client.set_processed_parcel Client.old_scenes
    Client.delete_scene Client.update_parcel Client.push_scene Client.replace_scenes
    Client.set_scene_parcels Client.save_root_cid_scene_cid local_save_file with_prefix recovery_id
    is_signature_valid has_access do_get get_parcel_access_data parse_parcel can_modify_parcel
    can_modify_each user_can_modify_parcels show_ℕ show_ℤ atoi ◌+ℤ◌ ◌*ℤ◌ wrap64 lookup insert
    has_suffix contains_text split_comma has_comma first_code get_scenes scenes_in scene_cids
    scenes_of all_scenes Client.processed_parcel Client.get_scene_parcels Client.get_scene_cid
    rect_to_parcels minmax rect_size column columns parcel_id ◌-ℤ◌
scenes_run = refl

get_scenes-owned_example : All (λ x. uploaded x.parcel_id ≡ some (str x.root_cid)) listed
get_scenes-owned_example =
    get_scenes-owned server in_order column_of_two uploaded uploaded
      (record { status = 200; body = json listed }) listed uploaded-IsConsistent scenes_run refl

abbrev asked : List String
asked = "Qm3" ∷ "Qm4" ∷ []

-- The storage has the first file.
abbrev stored : World Keyspace Disk
stored = record {
  redis = λ key. none;
  disk = λ path. if path == "storage/Qm3" then some (1 ∷ 2 ∷ 3 ∷ []) else none;
}

abbrev status_run : Result (Reply (Map Bool)) × World Keyspace Disk
status_run = check_content_status server (local_storage files "storage") files (some asked) stored

statuses_run : status_run ≡ (
  ok (record { status = 200; body = json (("Qm3", true) ∷ ("Qm4", false) ∷ []) }),
  status_run.1,
)
unfolding check_content_status statuses_of is_uploaded check_content_in_storage ◌>>=◌ on_error
    inspect on_redis on_disk Client.add_cid Client.is_content_member local_file_size insert
statuses_run = refl

abbrev answers : Map Bool
answers = ("Qm3", true) ∷ ("Qm4", false) ∷ []

check_content_status-IsRecorded_example :
    All (λ c. (b : Bool) × (lookup c answers ≡ some b)) asked
    × ((c : String) → lookup c answers ≡ some true → IsRecorded status_run.1.redis c)
    × IsRecording stored.redis status_run.1.redis
    × ((c : String)
        → lookup c answers ≡ some false
        → ((cause : String) × (s : Disk) × (u : Disk) × ((local_storage files "storage").file_size c
                s
              ≡ (err (not_found cause), u)))
          × ¬ (IsRecorded stored.redis c))
    × ((c : String)
        → IsRecorded status_run.1.redis c
        → IsRecorded stored.redis c
          ⊎ ((size : ℕ) × (s : Disk) × (u : Disk) × ((local_storage files "storage").file_size c s
                ≡ (ok size, u))))
check_content_status-IsRecorded_example =
    check_content_status-IsRecorded server (local_storage files "storage") files asked stored
      status_run.1 (record { status = 200; body = json answers }) answers statuses_run refl

abbrev bare_form : Form
bare_form = record { values = []; files = uploads }

abbrev bare : HttpRequest
bare = record { form = ok bare_form; origin = "" }

upload_content-without_metadata_example :
    upload_content handler service now bare world
    ≡ (ok (record { status = 500; body = error_body "internal error, try again later" }), world)
unfolding lookup
upload_content-without_metadata_example =
    upload_content-without_metadata handler service now bare bare_form world refl refl
