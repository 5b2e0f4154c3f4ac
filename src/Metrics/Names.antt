-- ===== src/Metrics/Names.antt =====
-- The names of the gauges of metrics/agent.go: no two methods share one.
use Prim.Native.String.{String}
use text.Mathlib.TextLemmas.{cons-append}
use content_service.Prelude.{
  ℕ, ◌≡◌, refl, sym, ap, ◌∙◌, false, ◌==◌, if◌then◌else◌, nat_eq, eq_iff, Bool-cases, inl, inr,
  arith,
}
use content_service.Prelude.Int.{ℤ, IsInt64}
use content_service.Prelude.Decimal.{show_ℤ, atoi, atoi-show_ℤ}
use content_service.Prelude.Text.{◌+++◌, append_cancel}
use content_service.Redis.Keys.{first_code}
use content_service.Metrics.{
  Sample, bytes_stored, bytes_retrieved, retrieve_time, storage_time, upload_req_size,
  upload_request_files, manifest_size, upload_process_time, upload_request_parse_time,
  is_member_time, dcl_response_time, upload_request_validation_time, get_parcel_metadata_time,
  get_parcel_content_time, store_content_time, store_metadata_time, dcl_api_error, metric_name,
}

-- The method that a sample is a call of.
abbrev pub method : Sample → ℕ
method (bytes_stored n) = 1
method (bytes_retrieved n) = 2
method (retrieve_time t) = 3
method (storage_time t) = 4
method (upload_req_size n) = 5
method (upload_request_files n) = 6
method (manifest_size n) = 7
method (upload_process_time t) = 8
method (upload_request_parse_time t) = 9
method (is_member_time t) = 10
method (dcl_response_time t) = 11
method (upload_request_validation_time t) = 12
method (get_parcel_metadata_time t) = 13
method (get_parcel_content_time t) = 14
method (store_content_time t) = 15
method (store_metadata_time t) = 16
method (dcl_api_error status) = 17

-- The method that a name belongs to.
abbrev method_of : String → ℕ
method_of name =
    if nat_eq (first_code name) 68
    then if name == "DCLResponseTime.msec.call" then 11 else 17
    else if name == "FileStored.bytes"
    then 1
    else if name == "FileRetrieved.bytes"
    then 2
    else if name == "StorageDownloadTime.msec.call"
    then 3
    else if name == "StorageTime.msec.call"
    then 4
    else if name == "UploadRequestSize.bytes"
    then 5
    else if name == "UploadedRequestFiles"
    then 6
    else if name == "ManifestRequestEntries"
    then 7
    else if name == "UploadProcessTime.msec.call"
    then 8
    else if name == "UploadParseTime.msec.call"
    then 9
    else if name == "IsMemberDuration.msec.call"
    then 10
    else if name == "UploadValidationTime.msec.call"
    then 12
    else if name == "GetParcelMetadata.msec.call"
    then 13
    else if name == "GetParcelContent.msec.call"
    then 14
    else if name == "StoreContent.msec.call"
    then 15
    else 16

second_code : String → ℕ
second_code String.[] = 0
second_code (String.◌∷◌ c s) = first_code s

api_error-first : (status : String) → first_code ("DecentralandAPIError" +++ status) ≡ 68
api_error-first status = rw cons-append (unfold first_code in refl)

api_error-second : (status : String) → second_code ("DecentralandAPIError" +++ status) ≡ 101
api_error-second status =
    rw cons-append (unfold second_code in rw cons-append (unfold first_code in refl))

api_error-other :
    (status : String) → (("DecentralandAPIError" +++ status) == "DCLResponseTime.msec.call") ≡ false
unfolding second_code first_code
api_error-other status =
    elim (Bool-cases (("DecentralandAPIError" +++ status) == "DCLResponseTime.msec.call")) [
      | inl same ↦
          let codes : ◌≡◌ {A = ℕ} 101 67 =
            sym (api_error-second status) ∙ ap second_code ((eq_iff _ _).0 same) in
          absurd (omega arith)
      | inr other ↦ other
    ]

method_of-name : (x : Sample) → method_of (metric_name x) ≡ method x
unfolding metric_name first_code
method_of-name (bytes_stored n) = refl
method_of-name (bytes_retrieved n) = refl
method_of-name (retrieve_time t) = refl
method_of-name (storage_time t) = refl
method_of-name (upload_req_size n) = refl
method_of-name (upload_request_files n) = refl
method_of-name (manifest_size n) = refl
method_of-name (upload_process_time t) = refl
method_of-name (upload_request_parse_time t) = refl
method_of-name (is_member_time t) = refl
method_of-name (dcl_response_time t) = refl
method_of-name (upload_request_validation_time t) = refl
method_of-name (get_parcel_metadata_time t) = refl
method_of-name (get_parcel_content_time t) = refl
method_of-name (store_content_time t) = refl
method_of-name (store_metadata_time t) = refl
method_of-name (dcl_api_error status) =
    rw (api_error-first (show_ℤ status), api_error-other (show_ℤ status)) refl

api_error-name :
    (a b : ℤ)
    → metric_name (dcl_api_error a) ≡ metric_name (dcl_api_error b)
    → "DecentralandAPIError" +++ show_ℤ a ≡ "DecentralandAPIError" +++ show_ℤ b
unfolding metric_name
api_error-name a b e = e

-- Two samples are sent under one name only if they are calls of the same method of the agent, and
-- errors of the land API only if they have the same status, where this is a Go int.
pub metric_name_injective :
    (x y : Sample)
    → metric_name x ≡ metric_name y
    → (method x ≡ method y)
      × ((a b : ℤ) → IsInt64 a → IsInt64 b → x ≡ dcl_api_error a → y ≡ dcl_api_error b → a ≡ b)
metric_name_injective x y same = (
  sym (method_of-name x) ∙ ap method_of same ∙ method_of-name y,
  λ a b i j p q. statuses a b i j (sym (ap metric_name p) ∙ same ∙ ap metric_name q),
)
  where
    statuses :
        (a b : ℤ)
        → IsInt64 a
        → IsInt64 b
        → metric_name (dcl_api_error a) ≡ metric_name (dcl_api_error b)
        → a ≡ b
    statuses a b i j e =
        let shown =
          append_cancel "DecentralandAPIError" (show_ℤ a) (show_ℤ b) (api_error-name a b e) in
        let read = sym (atoi-show_ℤ a i) ∙ ap atoi shown ∙ atoi-show_ℤ b j in cc
