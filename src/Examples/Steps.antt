-- ===== src/Examples/Steps.antt =====
-- The theorems on sequences of requests, and on what an upload leaves for the endpoints to read.
use content_service.Prelude.{
  ◌≡◌, ◌≢◌, refl, sym, ◌∙◌, String, true, false, List, [], ◌∷◌, Option, none, some, ◌==◌, contains,
  eq_iff, Bool-cases, inl, inr, arith,
}
use content_service.Prelude.Int.{◌-ℤ◌, ◌+ℤ◌, ◌*ℤ◌, wrap64}
use content_service.Prelude.Maps.{lookup, insert}
use content_service.Prelude.Entries.{first_entries}
use mathlib.Core.Option
use content_service.Prelude.Decimal.{show_ℕ, show_ℤ, atoi}
use content_service.Prelude.Text.{has_comma, trim_prefix, split_comma}
use content_service.Go.{Result, ok, err, invalid_argument, on_error, ◌>>=◌, inspect, for_each}
use content_service.World.{World}
use content_service.Http.{error_body, empty}
use content_service.Redis.{str, hash, list, Value}
use content_service.Redis.Client
use content_service.Redis.Keys.{is_parcel_key, starts_number, first_code}
use content_service.Redis.Scenes.{Keyspace, owners, set_scene_parcels-eq-scene_set}
use content_service.Redis.Ownership.{IsConsistent}
use content_service.Redis.Overlap.{overlapping_calls, overlapping_calls-inconsistent}
use content_service.Upload.Service.{
  UploadService, process_upload, validate_upload, validate_signature,
}
use content_service.Upload.{log_upload_request}
use content_service.Auth.{
  user_can_modify_parcels, can_modify_each, can_modify_parcel, get_parcel_access_data, do_get,
  has_access, parse_parcel, with_prefix, recovery_id, is_signature_valid,
}
use content_service.Upload.Handler.{upload_content}
use content_service.Upload.Status.{upload_content-refused, upload_content-unauthorized}
use content_service.Upload.Request.{
  has_request_expired, is_allowed, validate_headers, validate_content_types, parse_scene_metadata,
  get_metadata, parse_scene_json_file, get_scene, validate_entries, parse_files_metadata,
  get_manifest_content, max_elements, parse_metadata, parse_manifest, parse_scene, parse_request,
}
use content_service.Upload.Cids.{is_cid_v0}
use content_service.Upload.Names.{NamesCids}
use content_service.Upload.Paths.{names_file}
use content_service.Mappings.{ParcelContent, get_parcel_information, get_mappings}
use content_service.Mappings.Served.{has_element, process_upload-get_parcel_information}
use content_service.Redis.Answering.{IsAnswering}
use content_service.Reachable.{
  uploaded, mappings, Reach, here, next, Reach-IsConsistent, Reach-NamesCids,
}
use content_service.Examples.Server.{server, read, string_of}
use content_service.Examples.Service.{Disk, service, in_order, node_v0, wallet, land_api}
use content_service.Examples.Runs.{
  request, world, older, old_run, old_scene_run, older_scene-IsConsistent, upload_run, no_files,
}
use content_service.Examples.Endpoints.{handler, post, now, posted, posted_run, corners}

-- An upload and a request for its mappings.
abbrev pub after_read : World Keyspace Disk
after_read = record posted.1 {
  redis = (get_mappings server in_order (some corners) posted.1.redis).1;
}

pub two_requests : Reach handler service world after_read
two_requests =
    next (next here (uploaded now post (record { status = 200; body = empty }) posted_run refl))
      (mappings (some corners) refl)

Reach-IsConsistent_example : IsConsistent after_read.redis
Reach-IsConsistent_example =
    Reach-IsConsistent handler service node_v0 older_scene-IsConsistent two_requests

pub older-NamesCids : NamesCids is_cid_v0 old_run.1
unfolding first_code has_comma
older-NamesCids p c parcel e =
    let (_, xs, _, final) =
      set_scene_parcels-eq-scene_set server in_order "QmOld" older (λ key. none) old_run.1
        old_scene_run in
    let e' = sym (final p) ∙ e in
    elim (Bool-cases (contains p older)) [
      | inl named ↦ let e2 = rw named at e' in let same : "QmOld" ≡ c = cc in rw (← same) refl
      | inr other ↦
          let e2 = rw other at e' in
          elim (Bool-cases ("QmOld" == p)) [
            | inl own ↦ let e3 = rw own at e2 in cc
            | inr differ ↦
                let e3 = rw differ at e2 in
                elim (Bool-cases (contains p (owners (λ key. none) older))) [
                  | inl gone ↦ let e4 = rw gone at e3 in cc
                  | inr kept ↦ let e4 = rw kept at e3 in cc
                ]
          ]
    ]

Reach-NamesCids_example : NamesCids is_cid_v0 after_read.redis
Reach-NamesCids_example = Reach-NamesCids handler service node_v0 older-NamesCids two_requests

pub get-answers :
    (v : Option Value) (r : Option String) (d : Keyspace)
    → v ≡ Option.map str r
    → (t : Keyspace) × (read (string_of v) d ≡ (ok r, t))
get-answers none none d e = (d, refl)
get-answers none (some x) d e = cc
get-answers (some v) none d e = cc
get-answers (some (str x)) (some y) d e = let same : x ≡ y = cc in (d, rw same refl)
get-answers (some (hash x)) (some y) d e = cc
get-answers (some (Value.set x)) (some y) d e = cc
get-answers (some (list x)) (some y) d e = cc

pub answering : IsAnswering server
answering = record {
  get_answers = λ k d r e. get-answers (d k) r d e;
  hget_all_answers = λ k d g e. (first_entries g, d, rw e refl);
  sis_member_answers = λ k x d xs e. (contains x xs, d, rw e refl);
  lrange_all_answers = λ k d xs e. (xs, d, rw e refl);
}

process_upload-get_parcel_information_example :
    (pc : ParcelContent) × (t : Keyspace) × (get_parcel_information server in_order "1,3"
        (process_upload service request world).1.redis
      ≡ (ok (some pc), t))
    × (pc.parcel_id ≡ "1,3")
    × (pc.root_cid ≡ "QmRoot")
    × (pc.publisher ≡ "0xkey")
    × ((c name : String)
        → names_file request.manifest c name ≡ true
        → (cid : String) × (names_file request.manifest cid name ≡ true)
          × (has_element name cid pc.contents ≡ true))
process_upload-get_parcel_information_example =
    process_upload-get_parcel_information service node_v0 answering request world
      (process_upload service request world).1 "1,3" older-NamesCids
      (record { validity_type = omega arith; sequence = omega arith; timestamp = omega arith })
      (λ q. cc) upload_run refl

different_texts : ◌≢◌ {A = String} "QmA" "QmB"
different_texts q = let same : false ≡ true = (eq_iff "QmA" "QmB").1 q in cc

-- Two scenes for the parcel of an older one.
abbrev shared : List String
shared = "1,3" ∷ []

abbrev overlapped : Result (Unit {0}) × Keyspace
overlapped = overlapping_calls server in_order "QmA" shared "QmB" shared old_run.1

overlapped_run : overlapped ≡ (ok tt, overlapped.1)
unfolding overlapping_calls Client.old_scenes Client.get_parcel_cid Client.delete_scene
    Client.update_parcel Client.push_scene Client.replace_scenes Client.set_key
    Client.set_scene_parcels ◌>>=◌ on_error inspect for_each insert
overlapped_run = refl

not_owner : contains "QmA" (owners old_run.1 shared) ≡ false
unfolding Client.old_scenes Client.get_parcel_cid Client.delete_scene Client.update_parcel
    Client.push_scene Client.replace_scenes Client.set_key Client.set_scene_parcels ◌>>=◌ on_error
    inspect for_each insert
not_owner = refl

overlapping_calls-inconsistent_example :
    (xs : List String) × (ys : List String) × (overlapped.1 "QmA" ≡ some (list xs))
    × (contains "1,3" xs ≡ true)
    × (overlapped.1 "QmB" ≡ some (list ys))
    × (contains "1,3" ys ≡ true)
    × (overlapped.1 "1,3" ≡ some (str "QmB"))
    × ¬ (IsConsistent overlapped.1)
unfolding is_parcel_key starts_number has_comma
overlapping_calls-inconsistent_example =
    overlapping_calls-inconsistent server in_order "QmA" "QmB" "1,3" shared shared old_run.1
      overlapped.1 different_texts refl refl (refl, tt) (refl, tt) refl refl not_owner
      overlapped_run

-- A service that recovers another signer.
abbrev strict : UploadService Keyspace Disk
strict = record service { crypto = record wallet { address_of = λ key. some (8 ∷ []) } }

parsed_run : (parse_request handler {S = World Keyspace Disk} now post world).0 ≡ ok request
unfolding ◌>>=◌ on_error has_request_expired is_allowed validate_headers validate_content_types
    parse_scene_metadata get_metadata parse_scene_json_file get_scene validate_entries
    parse_files_metadata get_manifest_content max_elements parse_metadata parse_manifest parse_scene
    parse_request trim_prefix lookup ◌-ℤ◌ ◌+ℤ◌ ◌*ℤ◌ wrap64
parsed_run = refl

strict_run :
    validate_upload strict request no_files
    ≡ (err (invalid_argument "Signature is invalid"), no_files)
unfolding on_error ◌>>=◌ log_upload_request validate_signature validate_upload with_prefix
    recovery_id is_signature_valid show_ℕ show_ℤ
strict_run = refl

upload_content-refused_example : upload_content handler strict now post world ≡ (
  ok (record { status = 400; body = error_body "Signature is invalid" }),
  record { redis = world.redis; disk = no_files },
)
upload_content-refused_example =
    upload_content-refused handler strict now post request world
      (invalid_argument "Signature is invalid") no_files parsed_run strict_run

-- A service whose land API grants nothing.
abbrev closed : UploadService Keyspace Disk
closed = record service {
  land = record land_api { decode = λ body. ok (some (record { is_update_authorized = false })) };
}

signed_run : validate_signature closed request.metadata no_files ≡ (ok tt, no_files)
unfolding on_error ◌>>=◌ validate_signature with_prefix recovery_id is_signature_valid show_ℕ show_ℤ
signed_run = refl

denied_run :
    user_can_modify_parcels closed.land "0xkey" request.scene.scene.parcels no_files
    ≡ (ok false, no_files)
unfolding user_can_modify_parcels can_modify_each can_modify_parcel get_parcel_access_data do_get
    has_access ◌>>=◌ on_error parse_parcel split_comma atoi show_ℕ show_ℤ
denied_run = refl

logged_run : log_upload_request request.uploaded_files ≡ ok tt
unfolding log_upload_request
logged_run = refl

upload_content-unauthorized_example : upload_content handler closed now post world ≡ (
  ok (record {
    status = 401;
    body = error_body "address is not authorized to modify given parcels";
  }),
  record { redis = world.redis; disk = no_files },
)
upload_content-unauthorized_example =
    upload_content-unauthorized handler closed now post request world no_files no_files parsed_run
      logged_run signed_run denied_run
