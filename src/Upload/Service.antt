-- ===== src/Upload/Service.antt =====
-- internal/handlers/upload_service.go: ProcessUpload and the steps that it makes, over the Redis
-- server, the content storage, the file system, the IPFS node and the two signature services.
use Prim.Native.String.{len}
use content_service.Prelude.{
  ℕ, ◌≡◌, String, Bool, true, false, List, [], ◌∷◌, Option, none, some, ltb, ◌==◌, if◌then◌else◌,
  Map, lookup, length, MapRange,
}
use content_service.Prelude.Int.{ℤ, pos, ◌+ℤ◌, ◌*ℤ◌, ltb_ℤ, wrap64}
use content_service.Prelude.Decimal.{show_ℤ}
use content_service.Prelude.Text.{◌+++◌, has_suffix}
use content_service.Go.{
  GoError, invalid_argument, unexpected, unauthorized, not_found, plain, Result, ok, err, panicked,
  Exec, pure, raise, lift, ◌>>=◌, ◌>>◌, on_error, inspect, for_each,
}
use content_service.World.{World, on_redis, on_disk}
use content_service.Redis.{RedisServer}
use content_service.Redis.Client
use content_service.Auth.{Bytes, Crypto, LandApi, is_signature_valid, user_can_modify_parcels}
use content_service.Rpc.{EthClient, validate_dapper_signature}
use content_service.Storage.{Reader, FileSystem, Storage}
use content_service.Upload.{
  FileMetadata, Metadata, FileHeader, UploadRequest, group_file_paths_by_cid, scene_cid_of,
  metadata_fields, log_upload_request,
}

-- The IPFS node: `add` gives the CID of a file's bytes, `add_tree` that of a directory.
pub record IpfsNode (D : Type 0) : Type 0 where
  pub cid_of : Bytes → String
  pub add : Reader → Exec D String
  pub add_tree : String → Exec D String
  pub add_ok :
      (r : Reader) (s t : D) (c : String)
      → add r s ≡ (ok c, t)
      → (b : Bytes) × (r ≡ ok b) × (c ≡ cid_of b)

-- The fields of UploadServiceImpl, and the packages that it calls. `parses` and `verifies` are
-- cid.Parse and verifcid.ValidateCid.
pub record UploadService (R D : Type 0) : Type 1 where
  pub storage : Storage D
  pub redis : RedisServer R
  pub ipfs_node : IpfsNode D
  pub crypto : Crypto
  pub land : LandApi D
  pub parcel_size_limit : ℤ
  pub workdir : String
  pub rpc : EthClient D
  pub fs : FileSystem D
  pub parses : String → Bool
  pub verifies : String → Bool
  pub order : MapRange

unfoldable pub handle_storage_error : String → GoError → GoError
handle_storage_error cid (not_found cause) = invalid_argument ("file: " +++ cid +++ " not found")
handle_storage_error cid e = unexpected "storage error" e

abbrev pub refuse_unless : {S : Type 0} → Bool → GoError → Exec S Unit
refuse_unless true e = pure tt
refuse_unless false e = raise e

abbrev pub signed_message : String → ℤ → String
signed_message text timestamp = text +++ "." +++ show_ℤ timestamp

abbrev pub key_access_result : {D : Type 0} → String → Result Bool → Exec D Unit
key_access_result p_key (ok true) = pure tt
key_access_result p_key (ok false) =
    raise (unauthorized "address is not authorized to modify given parcels")
key_access_result p_key (err e) =
    raise (invalid_argument ("Error validating PublicKey[" +++ p_key +++ "]"))
key_access_result p_key panicked = lift panicked

module _ {R D : Type 0} (us : UploadService R D) where
  open us use {storage, redis, ipfs_node, crypto, land, parcel_size_limit, workdir, rpc, fs, order}

  unfoldable pub check_cid_format : String → Result (Unit {0})
  check_cid_format c =
      if us.parses c
      then if us.verifies c then ok tt else err (invalid_argument ("invalid cid: " +++ c))
      else err (invalid_argument ("invalid cid: " +++ c))

  unfoldable pub validate_signature : Metadata → Exec D Unit
  validate_signature m =
      if ltb 150 (len m.signature)
      then (do
        valid ←
            validate_dapper_signature rpc m.pub_key (signed_message m.value m.timestamp) m.signature
        refuse_unless valid (plain ("Signature fails to verify for " +++ m.pub_key)))
      else (do
        valid ← lift (
            is_signature_valid crypto (signed_message m.root_cid m.timestamp) m.signature m.pub_key)
        refuse_unless valid (invalid_argument "Signature is invalid"))

  unfoldable pub validate_key_access : String → List String → Exec D Unit
  validate_key_access p_key parcels =
      inspect (user_can_modify_parcels land p_key parcels) (key_access_result p_key)

  unfoldable pub retrieve_uploaded_file_size : String → Exec D ℤ
  retrieve_uploaded_file_size cid = do
    size ← on_error (storage.file_size cid) λ e. raise (handle_storage_error cid e)
    pure (pos size)

  -- The size of one manifest entry: that of the upload, or of the stored file.
  abbrev pub entry_size : String → Option (List FileHeader) → Exec D ℤ
  entry_size cid none = retrieve_uploaded_file_size cid
  entry_size cid (some []) = lift panicked
  entry_size cid (some (f ∷ fs)) = pure f.size

  unfoldable pub estimate_from : Map (List FileHeader) → ℤ → List FileMetadata → Exec D ℤ
  estimate_from files size [] = pure size
  estimate_from files size (m ∷ manifest) =
      if has_suffix m.name "/" then estimate_from files size manifest else (do
        s ← entry_size m.cid (lookup m.cid files)
        estimate_from files (wrap64 (size +ℤ s)) manifest)

  unfoldable pub estimate_request_size : UploadRequest → Exec D ℤ
  estimate_request_size r = estimate_from r.uploaded_files (pos 0) r.manifest

  unfoldable pub max_request_size : UploadRequest → ℤ
  max_request_size r = wrap64 (pos (length r.scene.scene.parcels) *ℤ parcel_size_limit)

  unfoldable pub validate_request_size : UploadRequest → Exec D Unit
  validate_request_size r = do
    size ← estimate_request_size r
    if ltb_ℤ (max_request_size r) size
        then raise (
            invalid_argument (
              "UploadRequest exceeds the allowed limit Max[bytes]: "
              +++ show_ℤ (max_request_size r)
              +++ ", RequestSize[bytes]: "
              +++ show_ℤ size))
        else pure tt

  unfoldable pub save_request_file : FileHeader → String → Exec D Unit
  save_request_file f path = do
    fs.mkdir_all (fs.dir path)
    fs.create (fs.join (fs.dir path) (fs.base path))
    file ← lift f.opened
    fs.copy (fs.join (fs.dir path) (fs.base path)) file

  unfoldable pub validate_cid : String → String → Exec D Unit
  validate_cid f expected_cid = do
    file ←
        on_error (fs.open_file f)
          λ e. raise (invalid_argument ("Unable to open File[" +++ f +++ "] to calculate CID"))
    actual_cid ← ipfs_node.add file
    refuse_unless (expected_cid == actual_cid) (
        invalid_argument
          ("File[" +++ f +++ "] CID does not match expected value: " +++ expected_cid))

  unfoldable pub retrieve_content : String → String → Exec D Unit
  retrieve_content cid store_path =
      on_error (storage.download_file cid store_path) λ e. raise (handle_storage_error cid e)

  -- The content of a manifest entry is put at its path: from the request, or from the storage.
  abbrev pub obtain_content : String → String → Option (List FileHeader) → Exec D Unit
  obtain_content cid path none = retrieve_content cid path
  obtain_content cid path (some []) = lift panicked
  obtain_content cid path (some (f ∷ fs)) = save_request_file f path

  unfoldable pub consolidate_file : Map (List FileHeader) → String → FileMetadata → Exec D Unit
  consolidate_file files root m = if has_suffix m.name "/" then pure tt else (do
    lift (check_cid_format m.cid)
    obtain_content m.cid (fs.join root m.name) (lookup m.cid files)
    validate_cid (fs.join root m.name) m.cid)

  unfoldable pub consolidate_content :
      Map (List FileHeader) → List FileMetadata → String → Exec D Unit
  consolidate_content files manifest root = for_each manifest (consolidate_file files root)

  -- `defer cleanup`: the outcome of the body stays, whatever the clean-up does.
  unfoldable pub with_cleanup : Exec D Unit → Exec D Unit → Exec D Unit
  with_cleanup body cleanup s = let (r, s') = body s in (r, (cleanup s').1)

  abbrev remove_found : String → Option ℕ → Exec D Unit
  remove_found path none = pure tt
  remove_found path (some size) = fs.remove_all path

  unfoldable pub clean_up_tmp_file : String → Exec D Unit
  clean_up_tmp_file path = do found ← fs.stat_size path; remove_found path found

  unfoldable pub calculate_root_cid : String → Exec D String
  calculate_root_cid path = ipfs_node.add_tree path

  unfoldable pub check_root : Map (List FileHeader) → List FileMetadata → String → Exec D Unit
  check_root files manifest root_cid = do
    consolidate_content files manifest (fs.join workdir root_cid)
    actual ← on_error (calculate_root_cid (fs.join workdir root_cid)) λ e. raise (unexpected "" e)
    refuse_unless (root_cid == actual)
        (invalid_argument "Generated root CID does not match given root CID")

  unfoldable pub validate_content_cid :
      Map (List FileHeader) → List FileMetadata → String → Exec D Unit
  validate_content_cid files manifest root_cid = do
    lift (check_cid_format root_cid)
    with_cleanup (check_root files manifest root_cid) (clean_up_tmp_file (fs.join workdir root_cid))

  abbrev pub first_header : List FileHeader → Result FileHeader
  first_header [] = panicked
  first_header (f ∷ fs) = ok f

  -- One uploaded file goes to the storage under the name of its form field.
  unfoldable pub save_uploaded : String × List FileHeader → Exec D Unit
  save_uploaded entry = do
    header ← lift (first_header entry.1)
    file ← on_error (lift header.opened) λ e. raise (unexpected "fail to open file" e)
    on_error (storage.save_file entry.0 file header.content_type)
        λ e. raise (unexpected "fail to store file" e)
    pure tt

  unfoldable pub record_path : String → String → String → Exec R Unit
  record_path root_cid file_cid path =
      on_error (Client.store_content redis root_cid path file_cid)
        λ e. raise (unexpected "redis: fail to store content" e)

  -- The paths of one file, and the file's CID in the set of uploaded ones.
  unfoldable pub record_file : String → String × List String → Exec R Unit
  record_file root_cid entry = do
    for_each entry.1 (record_path root_cid entry.0)
    on_error (Client.add_cid redis entry.0)
        λ e. raise (unexpected "redis: fail to store file cid" e)

  unfoldable pub process_uploaded_files :
      Map (List FileHeader) → Map (List String) → String → Exec (World R D) Unit
  process_uploaded_files files paths root_cid = do
    on_disk (for_each files save_uploaded)
    on_redis (for_each (order.range (List String) paths) (record_file root_cid))

  unfoldable pub store_parcel : String → Exec R Unit
  store_parcel parcel =
      on_error (Client.set_processed_parcel redis parcel)
        λ e. raise (unexpected "redis: fail to store parcel information" e)

  unfoldable pub store_parcels_information : String → List String → Exec R Unit
  store_parcels_information root_cid parcels = do
    on_error (Client.set_scene_parcels redis order root_cid parcels)
        λ e. raise (unexpected "redis: fail to store parcel cid" e)
    for_each parcels store_parcel

  -- What ProcessUpload writes to Redis after the files.
  unfoldable pub record_scene : UploadRequest → Exec R Unit
  record_scene r = do
    store_parcels_information r.metadata.root_cid r.scene.scene.parcels
    on_error (Client.store_metadata redis r.metadata.root_cid (metadata_fields r.metadata))
        λ e. raise (unexpected "fail to store metadata" e)
    on_error (Client.save_root_cid_scene_cid redis r.metadata.root_cid (scene_cid_of r.manifest))
        λ e. raise (unexpected "fail to save root cid" e)

  -- The checks of ProcessUpload, in their order.
  unfoldable pub validate_upload : UploadRequest → Exec D Unit
  validate_upload r = do
    lift (log_upload_request r.uploaded_files)
    validate_signature r.metadata
    validate_key_access r.metadata.pub_key r.scene.scene.parcels
    validate_request_size r
    validate_content_cid r.uploaded_files r.manifest r.metadata.root_cid

  unfoldable pub process_upload : UploadRequest → Exec (World R D) Unit
  process_upload r = do
    on_disk (validate_upload r)
    process_uploaded_files r.uploaded_files (group_file_paths_by_cid r.manifest) r.metadata.root_cid
    on_redis (record_scene r)
