-- ===== src/Examples/Runs.antt =====
-- The theorems on one upload of a scene of two parcels, and on small inputs of the helpers.
use content_service.Prelude.{
  arith, ◌≡◌, ◌≢◌, ◌⊎◌, All, refl, String, true, List, [], ◌∷◌, none, some, Map, ℕ,
}
use content_service.Prelude.Int.{pos, ◌+ℤ◌, ◌*ℤ◌, wrap64}
use content_service.Prelude.Maps.{lookup, insert}
use content_service.Prelude.Text.{has_suffix, contains_text, split_comma, has_comma}
use content_service.Prelude.Decimal.{show_ℕ, show_ℤ, atoi}
use content_service.Go.{Result, ok, err, invalid_argument, on_error, ◌>>=◌, inspect, for_each}
use content_service.World.{World, on_redis, on_disk}
use content_service.Redis.{list_of}
use content_service.Redis.Client
use content_service.Redis.Keys.{is_parcel_key, starts_number, first_code}
use content_service.Redis.Scenes.{
  Keyspace, without_scenes, scene_set, set_scene_parcels-eq-scene_set,
}
use content_service.Redis.Ownership.{IsConsistent, set_scene_parcels-IsConsistent}
use content_service.Auth.{
  with_prefix, recovery_id, is_signature_valid, has_access, do_get, get_parcel_access_data,
  parse_parcel, can_modify_parcel, can_modify_each, user_can_modify_parcels,
}
use content_service.Storage.{local_save_file}
use content_service.Upload.{
  FileHeader, UploadRequest, group_from, group_file_paths_by_cid, scene_cid_of, metadata_fields,
  log_upload_request,
}
use content_service.Upload.Service.{
  check_cid_format, validate_signature, validate_key_access, estimate_from, estimate_request_size,
  max_request_size, validate_request_size, save_request_file, validate_cid, consolidate_file,
  consolidate_content, with_cleanup, clean_up_tmp_file, calculate_root_cid, check_root,
  validate_content_cid, save_uploaded, record_path, record_file, process_uploaded_files,
  store_parcel, store_parcels_information, record_scene, validate_upload, process_upload,
}
use content_service.Upload.Validation.{IsAccepted, process_upload-IsAccepted}
use content_service.Upload.Integrity.{IsVerified, consolidate_content-IsVerified}
use content_service.Upload.Scenes.{process_upload-IsConsistent}
use content_service.Examples.Server.{server}
use content_service.Upload.Fields.{typed_fields-metadata_fields}
use content_service.Examples.Service.{Disk, service, in_order, node_v0}

abbrev pub scene_bytes : List ℕ
scene_bytes = 123 ∷ 32 ∷ 125 ∷ []

abbrev pub scene_header : FileHeader
scene_header = record {
  filename = "scene.json";
  size = pos 3;
  content_type = "application/json";
  opened = ok (ok scene_bytes);
}

abbrev pub uploads : Map (List FileHeader)
uploads = ("Qm3", scene_header ∷ []) ∷ []

abbrev pub request : UploadRequest
request = record {
  metadata = record {
    value = "/ipfs/QmRoot";
    signature = "0xsig";
    validity = "2030-01-01";
    validity_type = pos 0;
    sequence = pos 1;
    pub_key = "0xkey";
    root_cid = "QmRoot";
    timestamp = pos 1500000000;
  };
  manifest =
      record { cid = "Qm3"; name = "scene.json" } ∷ record { cid = ""; name = "assets/" } ∷ [];
  uploaded_files = uploads;
  scene = record {
    owner = "";
    scene = record { estate_id = pos 0; parcels = "1,2" ∷ "1,3" ∷ []; base = "1,2" };
    main = "game.js";
  };
  origin = "cli";
}

abbrev pub older : List String
older = "1,3" ∷ "7,7" ∷ []

-- An older scene owns the parcels "1,3" and "7,7".
abbrev pub old_run : Result (Unit {0}) × Keyspace
old_run = Client.set_scene_parcels server in_order "QmOld" older λ key. none

abbrev pub no_files : Disk
no_files path = none

abbrev pub world : World Keyspace Disk
world = record { redis = old_run.1; disk = no_files }

-- The list of a scene grows at its head and loses its parcels to another scene as a whole.
pub old_scene_run : old_run ≡ (ok tt, old_run.1)
unfolding Client.set_scene_parcels Client.old_scenes Client.get_parcel_cid Client.delete_scene
    Client.update_parcel Client.push_scene Client.replace_scenes Client.set_key ◌>>=◌ on_error
    inspect for_each insert
old_scene_run = refl

pub upload_run :
    process_upload service request world ≡ (ok tt, (process_upload service request world).1)
unfolding on_error ◌>>=◌ inspect for_each on_redis on_disk group_from group_file_paths_by_cid
    scene_cid_of metadata_fields log_upload_request check_cid_format validate_signature
    validate_key_access estimate_from estimate_request_size max_request_size validate_request_size
    save_request_file validate_cid consolidate_file consolidate_content with_cleanup
    clean_up_tmp_file calculate_root_cid check_root validate_content_cid save_uploaded record_path
    record_file process_uploaded_files store_parcel store_parcels_information record_scene
    validate_upload process_upload Client.store_content Client.store_metadata Client.set_key
    Client.add_cid Client.get_parcel_cid Client.set_processed_parcel Client.old_scenes
    Client.delete_scene Client.update_parcel Client.push_scene Client.replace_scenes
    Client.set_scene_parcels Client.save_root_cid_scene_cid local_save_file with_prefix recovery_id
    is_signature_valid has_access do_get get_parcel_access_data parse_parcel can_modify_parcel
    can_modify_each user_can_modify_parcels show_ℕ show_ℤ atoi ◌+ℤ◌ ◌*ℤ◌ wrap64 lookup insert
    has_suffix contains_text split_comma has_comma first_code
upload_run = refl

empty_keyspace-IsConsistent : IsConsistent λ key. none
empty_keyspace-IsConsistent = record {
  owned = λ c p xs h m. cc;
  listed = λ c p xs h m. cc;
  refers = λ p c q h. cc;
}

pub older_scene-IsConsistent : IsConsistent old_run.1
unfolding is_parcel_key starts_number has_comma
older_scene-IsConsistent =
    set_scene_parcels-IsConsistent server in_order "QmOld" older (λ key. none) old_run.1
      empty_keyspace-IsConsistent refl (refl, (refl, tt)) old_scene_run

set_scene_parcels-eq-scene_set_example :
    (older ≢ [])
    × (xs : List String) × (list_of (without_scenes (λ key. none) older "QmOld") ≡ some xs)
    × ((j : String) → old_run.1 j ≡ scene_set (λ key. none) "QmOld" older xs j)
set_scene_parcels-eq-scene_set_example =
    set_scene_parcels-eq-scene_set server in_order "QmOld" older (λ key. none) old_run.1
      old_scene_run

process_upload-IsConsistent_example : IsConsistent (process_upload service request world).1.redis
process_upload-IsConsistent_example =
    process_upload-IsConsistent service node_v0 request world
      (process_upload service request world).1 older_scene-IsConsistent upload_run

process_upload-IsAccepted_example : IsAccepted service request
process_upload-IsAccepted_example =
    process_upload-IsAccepted service request world (process_upload service request world).1
      upload_run

abbrev pub forged : UploadRequest
forged = record request { metadata = record request.metadata { pub_key = "0xother" } }

forged_run :
    validate_upload service forged no_files
    ≡ (err (invalid_argument "Signature is invalid"), no_files)
unfolding on_error ◌>>=◌ log_upload_request validate_signature validate_upload with_prefix
    recovery_id is_signature_valid show_ℕ show_ℤ
forged_run = refl

abbrev consolidated : Result (Unit {0}) × Disk
consolidated = consolidate_content service uploads request.manifest "tmp/QmRoot" no_files

consolidate_run : consolidated ≡ (ok tt, consolidated.1)
unfolding on_error ◌>>=◌ for_each check_cid_format save_request_file validate_cid consolidate_file
    consolidate_content show_ℕ has_comma has_suffix lookup first_code
consolidate_run = refl

consolidate_content-IsVerified_example :
    All (λ m. (has_suffix m.name "/" ≡ true) ⊎ IsVerified service uploads m) request.manifest
consolidate_content-IsVerified_example =
    consolidate_content-IsVerified service uploads request.manifest "tmp/QmRoot" no_files
      consolidated.1 consolidate_run

typed_fields-metadata_fields_example :
    Client.typed_fields (metadata_fields request.metadata)
    ≡ ok (
        ("value ", Client.text "/ipfs/QmRoot")
        ∷ ("signature", Client.text "0xsig")
        ∷ ("validity", Client.text "2030-01-01")
        ∷ ("validityType", Client.number (pos 0))
        ∷ ("sequence", Client.number (pos 1))
        ∷ ("pubkey", Client.text "0xkey")
        ∷ ("root_cid", Client.text "QmRoot")
        ∷ ("timestamp", Client.number (pos 1500000000))
        ∷ [])
typed_fields-metadata_fields_example =
    typed_fields-metadata_fields request.metadata (omega arith) (omega arith) (omega arith)
