-- ===== src/Upload/Scenes.antt =====
-- What a successful upload leaves in Redis: who owns the parcels.
use content_service.Prelude.{◌≡◌, refl, fun_ext, String, Bool, true, false}
use content_service.Prelude.Text.{has_comma}
use content_service.Go.{ok}
use content_service.World.{World}
use content_service.Redis.{hash, set, str}
use content_service.Redis.Client
use content_service.Redis.Keys.{
  is_parcel_key, is_parcel_key_of_no_comma, starts_number, content_key-plain, metadata_key-plain,
  root_scene_key-plain,
}
use content_service.Redis.Ownership.{IsConsistent, IsConsistent-write, scene_set-IsConsistent}
use content_service.Upload.{UploadRequest}
use content_service.Upload.Invariant.{IsKept, process_upload_keeps}
use content_service.Upload.Cids.{GivesCidsV0, is_cid_v0, is_cid_v0-CidSyntax}
use content_service.Upload.Service.{UploadService, process_upload}

writes-IsConsistent :
    (parses : String → Bool)
    → ((c : String) → parses c ≡ true → has_comma c ≡ false)
    → IsKept parses IsConsistent
unfolding is_parcel_key starts_number
writes-IsConsistent parses cids_plain = record {
  content =
      λ root h q write. IsConsistent-write _ (hash h) q (content_key-plain root) (λ xs e. cc) write;
  metadata = λ root h q write.
      IsConsistent-write _ (hash h) q (metadata_key-plain root) (λ xs e. cc) write;
  root_scene = λ cid other q write.
      IsConsistent-write _ (str other) q (root_scene_key-plain cid) (λ xs e. cc) write;
  uploaded = λ ys q write.
      IsConsistent-write Client.uploaded_elements_key (set ys) q refl (λ xs e. cc) write;
  processed =
      λ ys q write. IsConsistent-write Client.processed_set (set ys) q refl (λ xs e. cc) write;
  scenes = λ scene ps xs q parsed parcels found final. rw (fun_ext final) (
      scene_set-IsConsistent q scene ps xs
        (is_parcel_key_of_no_comma scene (cids_plain scene parsed)) parcels found);
}

module _ {R D : Type 0} (us : UploadService R D) where
  open us use {redis}

  -- If the IPFS node computes CIDs of version 0 and the keyspace is consistent, it is consistent after every upload that
  -- ProcessUpload returns nil for: each parcel is on the list of one scene at most, the one that its
  -- own key names.
  pub process_upload-IsConsistent :
      (v0 : GivesCidsV0 us.ipfs_node)
      → (r : UploadRequest) (w w' : World R D) → IsConsistent (redis.value_at w.redis)
      → process_upload us r w ≡ (ok tt, w')
      → IsConsistent (redis.value_at w'.redis)
  process_upload-IsConsistent v0 r w w' k h =
      process_upload_keeps us v0 IsConsistent
        (writes-IsConsistent is_cid_v0 is_cid_v0-CidSyntax.no_comma) r w w' k h
