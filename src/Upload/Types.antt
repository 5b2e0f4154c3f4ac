-- ===== src/Upload/Types.antt =====
-- The types of the keyspace's values through an upload (internal/handlers/upload_service.go).
use content_service.Prelude.{◌≡◌, refl, fun_ext, String, Bool}
use content_service.Go.{ok}
use content_service.World.{World}
use content_service.Redis.{hash, set, str}
use content_service.Redis.Client.{uploaded_elements_key, processed_set}
use content_service.Redis.Keys.{
  content_key-first, metadata_key-first, root_scene_key-first, uploaded_key-first,
  processed_key-first,
}
use content_service.Redis.Types.{IsTyped, IsTyped-write, key_shape, scene_set-IsTyped}
use content_service.Upload.{UploadRequest}
use content_service.Upload.Invariant.{IsKept, process_upload_keeps}
use content_service.Upload.Cids.{KeySyntax, GivesCidsV0, is_cid_v0, is_cid_v0-KeySyntax}
use content_service.Upload.Service.{UploadService, process_upload}

writes-IsTyped : (parses : String → Bool) → KeySyntax parses → IsKept parses (IsTyped parses)
unfolding key_shape
writes-IsTyped parses syntax = record {
  content = λ root h q write.
      IsTyped-write _ (hash h) q (rw (syntax.cids.no_content_key root, content_key-first root) refl)
        write;
  metadata = λ root h q write.
      IsTyped-write _ (hash h) q (rw (syntax.no_metadata_key root, metadata_key-first root) refl)
        write;
  root_scene = λ cid other q write.
      IsTyped-write _ (str other) q
        (rw (syntax.no_root_scene_key cid, root_scene_key-first cid) refl) write;
  uploaded = λ xs q write.
      IsTyped-write uploaded_elements_key (set xs) q
        (rw (syntax.no_uploaded_key, uploaded_key-first) refl) write;
  processed = λ xs q write.
      IsTyped-write processed_set (set xs) q
        (rw (syntax.no_processed_key, processed_key-first) refl) write;
  scenes = λ scene ps xs q parsed parcels found final.
      rw (fun_ext final) (scene_set-IsTyped syntax.cids.no_comma _ scene ps xs q parsed parcels);
}

-- If the IPFS node computes CIDs of version 0, then an upload for which
-- ProcessUpload returns nil leaves a typed keyspace typed.
pub process_upload-IsTyped :
    {R D : Type 0} (us : UploadService R D)
    → GivesCidsV0 us.ipfs_node
    → (r : UploadRequest) (w w' : World R D) → IsTyped is_cid_v0 (us.redis.value_at w.redis)
    → process_upload us r w ≡ (ok tt, w')
    → IsTyped is_cid_v0 (us.redis.value_at w'.redis)
process_upload-IsTyped us v0 =
    process_upload_keeps us v0 (IsTyped is_cid_v0) (writes-IsTyped is_cid_v0 is_cid_v0-KeySyntax)
