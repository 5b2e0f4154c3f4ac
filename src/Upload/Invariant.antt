-- ===== src/Upload/Invariant.antt =====
-- What every write of ProcessUpload (internal/handlers/upload_service.go) keeps of the keyspace, an
-- upload keeps.
use content_service.Prelude.{
  ◌≡◌, ◌∙◌, String, Bool, true, List, [], ◌∷◌, some, ◌==◌, if◌then◌else◌, Map, All, All-map_imp,
}
use content_service.Prelude.Text.{◌+++◌}
use content_service.Go.{ok, for_each}
use content_service.Go.Inversion.{>>=-eq-ok, on_error-raise-eq-ok}
use content_service.Go.Loops.{for_each_keeps}
use content_service.World.{World, on_disk, on_redis, on_disk-eq-ok, on_redis-eq-ok}
use content_service.Redis.{Value, str, hash, set, list_of}
use content_service.Redis.Client
use content_service.Redis.Scenes.{
  Keyspace, scene_set, without_scenes, set_scene_parcels-eq-scene_set,
}
use content_service.Redis.Ownership.{AllParcels}
use content_service.Auth.Access.{IsGranted}
use content_service.Auth.Ids.{parse_parcel-is_parcel_key}
use content_service.Upload.{UploadRequest, group_file_paths_by_cid, metadata_fields, scene_cid_of}
use content_service.Upload.Cids.{GivesCidsV0, is_cid_v0}
use content_service.Upload.Validation.{IsAccepted, validate_upload-IsAccepted}
use content_service.Upload.Service.{
  UploadService, record_path, record_file, process_uploaded_files, save_uploaded, store_parcel,
  store_parcels_information, record_scene, validate_upload, process_upload,
}

pub trivial : {A : Type 0} (xs : List A) → All (λ _. Unit {0}) xs
trivial [] = tt
trivial (x ∷ xs) = (tt, trivial xs)

-- The keyspace `e` is `d` with a value at one more key.
abbrev pub IsWritten : String → Value → Keyspace → Keyspace → Type 0
IsWritten key v d e = (j : String) → e j ≡ (if key == j then some v else d j)

-- A property of the keyspace that each kind of write keeps.
pub record IsKept (parses : String → Bool) (P : Keyspace → Type 0) : Type 0 where
  pub content :
      {d e : Keyspace} (root : String) (h : Map String)
      → P d
      → IsWritten (Client.content_key_prefix +++ root) (hash h) d e
      → P e
  pub metadata :
      {d e : Keyspace} (root : String) (h : Map String)
      → P d
      → IsWritten (Client.metadata_key_prefix +++ root) (hash h) d e
      → P e
  pub root_scene :
      {d e : Keyspace} (cid other : String)
      → P d
      → IsWritten (Client.root_scene_prefix +++ cid) (str other) d e
      → P e
  pub uploaded :
      {d e : Keyspace} (xs : List String)
      → P d
      → IsWritten Client.uploaded_elements_key (set xs) d e
      → P e
  pub processed :
      {d e : Keyspace} (xs : List String) → P d → IsWritten Client.processed_set (set xs) d e → P e
  pub scenes :
      {d e : Keyspace} (scene : String) (ps xs : List String)
      → P d
      → parses scene ≡ true
      → AllParcels ps
      → list_of (without_scenes d ps scene) ≡ some xs
      → ((j : String) → e j ≡ scene_set d scene ps xs j)
      → P e

module _ {R D : Type 0} (us : UploadService R D) where
  -- The root CID of an accepted upload is one that the IPFS node computed.
  pub accepted-is_cid_v0 :
      (v0 : GivesCidsV0 us.ipfs_node) (r : UploadRequest)
      → IsAccepted us r
      → is_cid_v0 r.metadata.root_cid ≡ true
  accepted-is_cid_v0 v0 r accepted =
      v0.tree_cid _ accepted.content.before accepted.content.after r.metadata.root_cid
        accepted.content.root

  pub granted-AllParcels :
      (key : String) (ps : List String) → All (IsGranted us.land key) ps → AllParcels ps
  granted-AllParcels key ps h =
      All-map_imp ps (λ p g. parse_parcel-is_parcel_key p (g.x, g.y) g.parsed) h

module _ {R D : Type 0} (us : UploadService R D) (v0 : GivesCidsV0 us.ipfs_node)
    (P : Keyspace → Type 0) (k : IsKept is_cid_v0 P) where
  open us use {redis, order}
  open redis use {value_at}

  record_file_keeps :
      (root : String) (entry : String × List String) (s t : R)
      → P (value_at s)
      → record_file us root entry s ≡ (ok tt, t)
      → P (value_at t)
  unfolding record_file record_path Client.store_content Client.add_cid
  record_file_keeps root entry s t p h =
      let (_, u, e, h') = >>=-eq-ok (for_each entry.1 (record_path us root entry.0)) _ s h in
      let paths : P (value_at u) =
        for_each_keeps (record_path us root entry.0) (λ _. Unit {0}) (λ x. P (value_at x))
          (λ path a b _ q r.
            let (m, _, write) =
              redis.hset_ok _ path entry.0 a b
                (on_error-raise-eq-ok (Client.store_content redis root path entry.0) _ a r) in
            k.content root _ q write)
          entry.1 s (trivial entry.1) p e in
      let (xs, _, write) =
        redis.sadd_ok _ entry.0 u t (on_error-raise-eq-ok (Client.add_cid redis entry.0) _ u h') in
      k.uploaded _ paths write

  store_parcels_keeps :
      (ps : List String) (s t : R)
      → P (value_at s)
      → for_each ps (store_parcel us) s ≡ (ok tt, t)
      → P (value_at t)
  unfolding store_parcel Client.set_processed_parcel
  store_parcels_keeps ps s t p h =
      for_each_keeps (store_parcel us) (λ _. Unit {0}) (λ x. P (value_at x))
        (λ parcel a b _ q r.
          let (xs, _, write) =
            redis.sadd_ok _ parcel a b
              (on_error-raise-eq-ok (Client.set_processed_parcel redis parcel) _ a r) in
          k.processed _ q write)
        ps s (trivial ps) p h

  save_root_keeps :
      (root scene : String) (s t : R)
      → P (value_at s)
      → Client.save_root_cid_scene_cid redis root scene s ≡ (ok tt, t)
      → P (value_at t)
  unfolding Client.save_root_cid_scene_cid
  save_root_keeps root scene s t p h =
      let (_, u, e, h') = >>=-eq-ok (redis.set (Client.root_scene_prefix +++ root) scene) _ s h in
      k.root_scene scene root (k.root_scene root scene p (redis.set_ok _ scene s u e))
        (redis.set_ok _ root u t h')

  record_scene_keeps :
      (r : UploadRequest) (s t : R)
      → P (value_at s)
      → is_cid_v0 r.metadata.root_cid ≡ true
      → AllParcels r.scene.scene.parcels
      → record_scene us r s ≡ (ok tt, t)
      → P (value_at t)
  unfolding record_scene store_parcels_information Client.store_metadata
  record_scene_keeps r s t p parsed parcels h =
      let root = r.metadata.root_cid in
      let ps = r.scene.scene.parcels in
      let fields = metadata_fields r.metadata in
      let (_, s1, e1, k1) = >>=-eq-ok (store_parcels_information us root ps) _ s h in
      let (_, s2, e2, k2) = >>=-eq-ok _ _ s1 k1 in
      let (_, s3, e3, k3) = >>=-eq-ok _ (λ _. for_each ps (store_parcel us)) s e1 in
      let (_, xs, found, final) =
        set_scene_parcels-eq-scene_set redis order root ps s s3
          (on_error-raise-eq-ok (Client.set_scene_parcels redis order root ps) _ s e3) in
      let owners = k.scenes root ps xs p parsed parcels found final in
      let (older, _, write) =
        redis.hmset_ok _ fields s1 s2
          (on_error-raise-eq-ok (Client.store_metadata redis root fields) _ s1 e2) in
      save_root_keeps root (scene_cid_of r.manifest) s2 t
        (k.metadata root _ (store_parcels_keeps ps s3 s1 owners k3) write)
        (on_error-raise-eq-ok (Client.save_root_cid_scene_cid redis root (scene_cid_of r.manifest))
          _ s2 k2)

  pub process_upload_keeps :
      (r : UploadRequest) (w w' : World R D)
      → P (value_at w.redis)
      → process_upload us r w ≡ (ok tt, w')
      → P (value_at w'.redis)
  unfolding process_upload process_uploaded_files
  process_upload_keeps r w w' p h =
      let root = r.metadata.root_cid in
      let paths = order.range (List String) (group_file_paths_by_cid r.manifest) in
      let (_, w1, e1, k1) = >>=-eq-ok (on_disk (validate_upload us r)) _ w h in
      let (checked, kept1) = on_disk-eq-ok (validate_upload us r) w w1 tt e1 in
      let accepted = validate_upload-IsAccepted us r w.disk w1.disk checked in
      let (_, w2, e2, k2) = >>=-eq-ok _ (λ _. on_redis (record_scene us r)) w1 k1 in
      let (_, w3, e3, k3) =
        >>=-eq-ok (on_disk (for_each r.uploaded_files (save_uploaded us))) _ w1 e2 in
      let kept2 = (on_disk-eq-ok (for_each r.uploaded_files (save_uploaded us)) w1 w3 tt e3).1 in
      let files =
        for_each_keeps (record_file us root) (λ _. Unit {0}) (λ x. P (value_at x))
          (λ entry a b _ q x. record_file_keeps root entry a b q x) paths w3.redis (trivial paths)
          (rw (kept2 ∙ kept1) p)
          (on_redis-eq-ok (for_each paths (record_file us root)) w3 w2 tt k3).0 in
      record_scene_keeps r w2.redis w'.redis files (accepted-is_cid_v0 us v0 r accepted)
        (granted-AllParcels us r.metadata.pub_key r.scene.scene.parcels accepted.granted)
        (on_redis-eq-ok (record_scene us r) w2 w' tt k2).0
