-- ===== src/Metrics/Uploads.antt =====
-- The event that ProcessUpload (internal/handlers/upload_service.go) sends at its end.
use content_service.Prelude.{
  ◌≡◌, refl, ◌∙◌, String, Bool, ◌&&◌, List, [], ◌∷◌, map, Map, MapRange, ◌==◌, arith,
}
use content_service.Prelude.Entries.{any, any-perm}
use content_service.Upload.{UploadRequest, group_file_paths_by_cid}
use content_service.Upload.Paths.{of_paths, names_file, any_path-group}
use content_service.Prelude.{Option, none, some}
use content_service.Prelude.Int.{ℤ}
use content_service.Prelude.Decimal.{atoi}
use content_service.Go.{Exec, pure}
use content_service.Metrics.{
  Agent, upload_req_size, ContentOccurrence, UploadEvent, track_of, content_occurrence,
}
use content_service.Metrics.Agents.{track_of-files}

-- sendRequestData of internal/handlers/upload_handler.go: the size that the request states, if it is
-- a number.
abbrev report_size : {S : Type 0} → Agent S → Option ℤ → Exec S Unit
report_size agent none = pure tt
report_size agent (some size) = agent.record_sample (upload_req_size size)

unfoldable pub send_request_data : {S : Type 0} → Agent S → String → Exec S Unit
send_request_data agent content_length = report_size agent (atoi content_length)

-- The arguments of RecordUpload.
unfoldable pub upload_event : UploadRequest → UploadEvent
upload_event r = record {
  upload_id = r.metadata.root_cid;
  uploader = r.metadata.pub_key;
  parcels = r.scene.scene.parcels;
  files = group_file_paths_by_cid r.manifest;
  origin = r.origin;
}

-- The event has the path under the CID.
abbrev pub tells : List ContentOccurrence → String → String → Bool
tells files cid path = any (λ o. any (λ n. (o.hash == cid) && (n == path)) o.files) files

tells-map :
    (cid path : String) (m : Map (List String))
    → tells (map content_occurrence m) cid path ≡ any (of_paths λ c n. (c == cid) && (n == path)) m
tells-map cid path [] = refl
tells-map cid path (e ∷ m) = ground (arith, tells-map cid path m)

-- The event of an upload tells of a path under a CID if and only if the manifest gives the CID's file
-- this name, whatever the order in which the loop over the files meets them; it has the root CID, the publisher, the
-- parcels and the origin of the request.
pub track_of-upload_event :
    (order : MapRange) (r : UploadRequest)
    → ((cid path : String)
        → tells (track_of order (upload_event r)).files cid path ≡ names_file r.manifest cid path)
      × ((track_of order (upload_event r)).cid ≡ r.metadata.root_cid)
      × ((track_of order (upload_event r)).user_id ≡ r.metadata.pub_key)
      × ((track_of order (upload_event r)).parcels ≡ r.scene.scene.parcels)
      × ((track_of order (upload_event r)).origin ≡ r.origin)
unfolding track_of upload_event
track_of-upload_event order r = (
  λ cid path.
      any-perm (λ (o : ContentOccurrence). any (λ n. (o.hash == cid) && (n == path)) o.files)
        (track_of-files order (upload_event r))
      ∙ tells-map cid path (group_file_paths_by_cid r.manifest)
      ∙ any_path-group (λ c n. (c == cid) && (n == path)) r.manifest,
  refl,
  refl,
  refl,
  refl,
)
