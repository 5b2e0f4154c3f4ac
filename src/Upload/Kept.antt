-- ===== src/Upload/Kept.antt =====
-- What the steps of ProcessUpload (internal/handlers/upload_service.go) leave alone: the keys of
-- Redis that each of them does not write, and what the parcels' keys hold in the end.
use content_service.Prelude.{
  ◌≡◌, refl, ap, ◌∙◌, String, true, false, List, ◌∷◌, Map, All, All-map_imp, contains, ◌==◌, some,
  eq_refl, arith,
}
use content_service.Prelude.Text.{◌+++◌}
use content_service.Go.{ok, for_each}
use content_service.Go.Inversion.{>>=-eq-ok, on_error-raise-eq-ok}
use content_service.Go.Loops.{for_each_keeps, for_each_all}
use content_service.Redis.{hash, set, set_of, insert_all}
use content_service.Redis.Client
use content_service.Redis.Keys.{
  is_parcel_key, starts_number, content_key-plain, metadata_key-plain, root_scene_key-plain,
  different_keys, metadata_key-first, root_scene_key-first, processed_key-first,
}
use content_service.Redis.Scenes.{Keyspace, owners, scene_set, set_scene_parcels-eq-scene_set}
use content_service.Redis.Ownership.{plain-ne-parcel}
use content_service.Upload.{UploadRequest, metadata_fields, scene_cid_of}
use content_service.Upload.Invariant.{trivial}
use content_service.Upload.Service.{
  UploadService, record_path, record_file, store_parcel, store_parcels_information, record_scene,
}

-- A key that ProcessUpload does not write after SetSceneParcels.
pub record IsApart (root j : String) : Type 0 where
  pub processed : (Client.processed_set == j) ≡ false
  pub metadata : ((Client.metadata_key_prefix +++ root) == j) ≡ false
  pub root_scenes : (c : String) → ((Client.root_scene_prefix +++ c) == j) ≡ false

pub parcel-IsApart : (root p : String) → is_parcel_key p ≡ true → IsApart root p
unfolding is_parcel_key starts_number
parcel-IsApart root p h = record {
  processed = plain-ne-parcel _ p refl h;
  metadata = plain-ne-parcel _ p (metadata_key-plain root) h;
  root_scenes = λ c. plain-ne-parcel _ p (root_scene_key-plain c) h;
}

-- The parcel is in the set of the processed ones.
pub record IsDone (d : Keyspace) (p : String) : Type 0 where
  pub done : List String
  pub at_key : d Client.processed_set ≡ some (set done)
  pub is_done : contains p done ≡ true

moved-IsDone :
    {d e : Keyspace}
    → e Client.processed_set ≡ d Client.processed_set
    → (p : String) → IsDone d p
    → IsDone e p
moved-IsDone same p i = record { done = i.done; at_key = same ∙ i.at_key; is_done = i.is_done }

module _ {R D : Type 0} (us : UploadService R D) where
  open us use {redis, order}
  open redis use {value_at}

  -- The files: the content hash and the set of uploaded CIDs.
  record_file-same :
      (root p : String) (entry : String × List String) (s t : R)
      → is_parcel_key p ≡ true
      → record_file us root entry s ≡ (ok tt, t)
      → value_at t p ≡ value_at s p
  unfolding record_file record_path Client.store_content Client.add_cid is_parcel_key starts_number
  record_file-same root p entry s t parcel h =
      let (_, u, e, k) = >>=-eq-ok (for_each entry.1 (record_path us root entry.0)) _ s h in
      let paths : value_at u p ≡ value_at s p =
        for_each_keeps (record_path us root entry.0) (λ _. Unit {0})
          (λ x. value_at x p ≡ value_at s p)
          (λ path a b _ q r.
            let (_, _, write) =
              redis.hset_ok _ path entry.0 a b
                (on_error-raise-eq-ok (Client.store_content redis root path entry.0) _ a r) in
            write p ∙ rw (plain-ne-parcel _ p (content_key-plain root) parcel) q)
          entry.1 s (trivial entry.1) refl e in
      let (_, _, write) =
        redis.sadd_ok _ entry.0 u t (on_error-raise-eq-ok (Client.add_cid redis entry.0) _ u k) in
      write p ∙ rw (plain-ne-parcel Client.uploaded_elements_key p refl parcel) paths

  pub record_files-same :
      (root p : String) (paths : Map (List String)) (s t : R)
      → is_parcel_key p ≡ true
      → for_each paths (record_file us root) s ≡ (ok tt, t)
      → value_at t p ≡ value_at s p
  record_files-same root p paths s t parcel h =
      for_each_keeps (record_file us root) (λ _. Unit {0}) (λ x. value_at x p ≡ value_at s p)
        (λ entry a b _ q r. record_file-same root p entry a b parcel r ∙ q) paths s (trivial paths)
        refl h

  store_parcels-same :
      (j : String) (ps : List String) (s t : R)
      → (Client.processed_set == j) ≡ false
      → for_each ps (store_parcel us) s ≡ (ok tt, t)
      → value_at t j ≡ value_at s j
  unfolding store_parcel Client.set_processed_parcel
  store_parcels-same j ps s t apart h =
      for_each_keeps (store_parcel us) (λ _. Unit {0}) (λ x. value_at x j ≡ value_at s j)
        (λ p a b _ q r.
          let (_, _, write) =
            redis.sadd_ok _ p a b
              (on_error-raise-eq-ok (Client.set_processed_parcel redis p) _ a r) in
          write j ∙ rw apart q)
        ps s (trivial ps) refl h

  save_root-same :
      (j root scene : String) (s t : R)
      → ((c : String) → ((Client.root_scene_prefix +++ c) == j) ≡ false)
      → Client.save_root_cid_scene_cid redis root scene s ≡ (ok tt, t)
      → value_at t j ≡ value_at s j
  unfolding Client.save_root_cid_scene_cid
  save_root-same j root scene s t apart h =
      let (_, u, e, k) = >>=-eq-ok (redis.set (Client.root_scene_prefix +++ root) scene) _ s h in
      redis.set_ok _ root u t k j
      ∙ rw (apart scene) (redis.set_ok _ scene s u e j ∙ rw (apart root) refl)

  store_parcel-IsDone :
      (p : String) (s t : R) → store_parcel us p s ≡ (ok tt, t) → IsDone (value_at t) p
  unfolding store_parcel Client.set_processed_parcel
  store_parcel-IsDone p s t e =
      let (xs, _, write) =
        redis.sadd_ok _ p s t (on_error-raise-eq-ok (Client.set_processed_parcel redis p) _ s e) in
      record { done = p ∷ xs; at_key = write Client.processed_set; is_done = rw (eq_refl p) refl }

  store_parcel-keeps :
      (p q : String) (s t : R)
      → IsDone (value_at s) p
      → store_parcel us q s ≡ (ok tt, t)
      → IsDone (value_at t) p
  unfolding store_parcel Client.set_processed_parcel
  store_parcel-keeps p q s t d e =
      let (xs, found, write) =
        redis.sadd_ok _ q s t (on_error-raise-eq-ok (Client.set_processed_parcel redis q) _ s e) in
      let same : d.done ≡ xs = let there = ap set_of (d.at_key) in cc in
      record {
        done = q ∷ xs;
        at_key = write Client.processed_set;
        is_done = rw (← same) (ground (arith, d.is_done));
      }

  store_parcels-IsDone :
      (ps : List String) (s t : R)
      → for_each ps (store_parcel us) s ≡ (ok tt, t)
      → All (IsDone (value_at t)) ps
  store_parcels-IsDone ps s t h =
      for_each_all (store_parcel us) (λ _. Unit {0}) (λ p x. IsDone (value_at x) p)
        (λ p x y _ q. store_parcel-IsDone p x y q)
        (λ p other x y _ d q. store_parcel-keeps p other x y d q) ps s (trivial ps) h

  -- What record_scene leaves: the keys that SetSceneParcels sets, the metadata of the root CID, and
  -- the scene's parcels in the set of the processed ones.
  pub record IsRecordedScene (r : UploadRequest) (d e : Keyspace) : Type 0 where
    pub found : List String
    pub scenes :
        (j : String)
        → IsApart r.metadata.root_cid j
        → e j ≡ scene_set d r.metadata.root_cid r.scene.scene.parcels found j
    pub processed : All (IsDone e) r.scene.scene.parcels
    pub older : Map String
    pub metadata :
        e (Client.metadata_key_prefix +++ r.metadata.root_cid)
        ≡ some (hash (insert_all (metadata_fields r.metadata) older))

  pub record_scene-IsRecordedScene :
      (r : UploadRequest) (s t : R)
      → record_scene us r s ≡ (ok tt, t)
      → IsRecordedScene r (value_at s) (value_at t)
  unfolding record_scene store_parcels_information Client.store_metadata
  record_scene-IsRecordedScene r s t h =
      let root = r.metadata.root_cid in
      let ps = r.scene.scene.parcels in
      let fields = metadata_fields r.metadata in
      let (_, s1, e1, k1) = >>=-eq-ok (store_parcels_information us root ps) _ s h in
      let (_, s2, e2, k2) = >>=-eq-ok _ _ s1 k1 in
      let (_, s3, e3, k3) = >>=-eq-ok _ (λ _. for_each ps (store_parcel us)) s e1 in
      let (_, xs, _, owners) =
        set_scene_parcels-eq-scene_set redis order root ps s s3
          (on_error-raise-eq-ok (Client.set_scene_parcels redis order root ps) _ s e3) in
      let (older, _, write) =
        redis.hmset_ok _ fields s1 s2
          (on_error-raise-eq-ok (Client.store_metadata redis root fields) _ s1 e2) in
      let saved =
        on_error-raise-eq-ok (Client.save_root_cid_scene_cid redis root (scene_cid_of r.manifest)) _
          s2 k2 in
      let key = Client.metadata_key_prefix +++ root in
      record {
        found = xs;
        scenes = λ j apart.
            save_root-same j root (scene_cid_of r.manifest) s2 t apart.root_scenes saved
            ∙ write j
            ∙ rw apart.metadata (store_parcels-same j ps s3 s1 apart.processed k3)
            ∙ owners j;
        processed =
            All-map_imp ps
              (moved-IsDone (
                save_root-same Client.processed_set root (scene_cid_of r.manifest) s2 t
                  (λ c.
                    different_keys _ _ 114 112 (root_scene_key-first c) processed_key-first
                      (omega arith))
                  saved
                ∙ write Client.processed_set
                ∙ rw
                    (different_keys _ Client.processed_set 109 112 (metadata_key-first root)
                      processed_key-first (omega arith))
                    refl))
              (store_parcels-IsDone ps s3 s1 k3);
        older = older;
        metadata =
            save_root-same key root (scene_cid_of r.manifest) s2 t
              (λ c.
                different_keys _ _ 114 109 (root_scene_key-first c) (metadata_key-first root)
                  (omega arith))
              saved
            ∙ write key
            ∙ rw (eq_refl key) refl;
      }
