-- ===== src/Upload/Names.antt =====
-- What a successful upload leaves in Redis for the endpoints to read: the parcels' keys, the
-- metadata of the root CID and its content.
use content_service.Prelude.{
  ◌≡◌, refl, sym, ap, ◌∙◌, String, Bool, true, false, List, [], ◌∷◌, Option, none, some, ◌==◌,
  contains, eq_iff, Bool-cases, inl, inr, arith,
}
use content_service.Go.{ok, for_each}
use content_service.Go.Inversion.{>>=-eq-ok}
use content_service.World.{World, on_disk, on_redis, on_disk-eq-ok, on_redis-eq-ok}
use content_service.Redis.{Value, str, hash, set, list}
use content_service.Redis.Keys.{
  is_parcel_key, is_parcel_key_of_no_comma, content_key-plain, different_keys, first_code,
  content_key-first, metadata_key-first, root_scene_key-first, processed_key-first,
}
use content_service.Redis.Scenes.{Keyspace, owner_of, owners}
use content_service.Redis.Ownership.{AllParcels, plain-ne-parcel, contains-AllParcels, not_named}
use content_service.Upload.{UploadRequest, group_file_paths_by_cid}
use content_service.Upload.Cids.{GivesCidsV0, is_cid_v0, is_cid_v0-CidSyntax}
use content_service.Upload.Paths.{names_file}
use content_service.Upload.Recorded.{IsListed, content_key, record_files-IsListed}
use content_service.Upload.Kept.{
  IsApart, parcel-IsApart, IsRecordedScene, record_files-same, record_scene-IsRecordedScene,
}
use content_service.Upload.Invariant.{accepted-is_cid_v0, granted-AllParcels}
use content_service.Upload.Validation.{validate_upload-IsAccepted}
use content_service.Upload.Service.{
  UploadService, process_uploaded_files, save_uploaded, record_file, record_scene, validate_upload,
  process_upload,
}

-- A parcel's key names a CID.
abbrev pub NamesCids : (String → Bool) → Keyspace → Type 0
NamesCids parses d = (p c : String) → is_parcel_key p ≡ true → d p ≡ some (str c) → parses c ≡ true

module _ {parses : String → Bool} {d : Keyspace} (names : NamesCids parses d) where
  owner_unlike :
      (j p : String) (v : Option Value)
      → parses j ≡ false
      → ("" == j) ≡ false
      → is_parcel_key p ≡ true
      → d p ≡ v
      → (owner_of v == j) ≡ false
  owner_unlike j p (some (str c)) unparsed full parcel e = elim (Bool-cases (c == j)) [
    | inl same ↦ let parsed = names p c parcel e in let path = ap parses ((eq_iff c j).0 same) in cc
    | inr other ↦ other
  ]
  owner_unlike j p none unparsed full parcel e = full
  owner_unlike j p (some (hash x)) unparsed full parcel e = full
  owner_unlike j p (some (set x)) unparsed full parcel e = full
  owner_unlike j p (some (list x)) unparsed full parcel e = full

  -- A text that is neither empty nor a CID is the root CID of no parcel.
  owners_unlike :
      (j : String) (ps : List String)
      → parses j ≡ false
      → ("" == j) ≡ false
      → AllParcels ps
      → contains j (owners d ps) ≡ false
  owners_unlike j [] unparsed full _ = refl
  owners_unlike j (p ∷ ps) unparsed full (parcel, parcels) =
      rw (owner_unlike j p (d p) unparsed full parcel refl)
        (owners_unlike j ps unparsed full parcels)

content_key-IsApart : (root c : String) → IsApart root (content_key c)
content_key-IsApart root c = record {
  processed = different_keys _ _ 112 99 processed_key-first (content_key-first c) (omega arith);
  metadata =
      different_keys _ _ 109 99 (metadata_key-first root) (content_key-first c) (omega arith);
  root_scenes =
      λ s. different_keys _ _ 114 99 (root_scene_key-first s) (content_key-first c) (omega arith);
}

empty-ne-content : (c : String) → ("" == content_key c) ≡ false
unfolding first_code
empty-ne-content c = different_keys "" _ 0 99 refl (content_key-first c) (omega arith)

module _ {R D : Type 0} (us : UploadService R D) (v0 : GivesCidsV0 us.ipfs_node) where
  open us use {redis, order}
  open redis use {value_at}

  -- What the endpoints find after the upload.
  pub record IsStored (r : UploadRequest) (d e : Keyspace) : Type 0 where
    pub parcels : AllParcels r.scene.scene.parcels
    pub plain_root : is_parcel_key r.metadata.root_cid ≡ false
    pub parsed_root : is_cid_v0 r.metadata.root_cid ≡ true
    pub scene : IsRecordedScene us r d e
    pub listed :
        (c name : String)
        → names_file r.manifest c name ≡ true
        → IsListed r.manifest e r.metadata.root_cid name

  record_scene-keeps_content :
      (r : UploadRequest) (d e : Keyspace)
      → NamesCids is_cid_v0 d
      → AllParcels r.scene.scene.parcels
      → is_cid_v0 r.metadata.root_cid ≡ true
      → IsRecordedScene us r d e
      → e (content_key r.metadata.root_cid) ≡ d (content_key r.metadata.root_cid)
  record_scene-keeps_content r d e names parcels parsed scene =
      let root = r.metadata.root_cid in
      let key = content_key root in
      let other : (root == key) ≡ false = elim (Bool-cases (root == key)) [
        | inl same ↦
            let path = ap is_cid_v0 ((eq_iff root key).0 same) in
            let unparsed = is_cid_v0-CidSyntax.no_content_key root in cc
        | inr differ ↦ differ
      ] in
      scene.scenes key (content_key-IsApart root root)
      ∙ rw
          (
            not_named key r.scene.scene.parcels (content_key-plain root) parcels,
            other,
            owners_unlike names key r.scene.scene.parcels (is_cid_v0-CidSyntax.no_content_key root)
                (empty-ne-content root) parcels,
          )
          refl

  pub process_upload-IsStored :
      (r : UploadRequest) (w w' : World R D)
      → NamesCids is_cid_v0 (value_at w.redis)
      → process_upload us r w ≡ (ok tt, w')
      → (d : Keyspace) × IsStored r d (value_at w'.redis)
        × ((p : String) → is_parcel_key p ≡ true → d p ≡ value_at w.redis p)
  unfolding process_upload process_uploaded_files
  process_upload-IsStored r w w' names h =
      let root = r.metadata.root_cid in
      let paths = order.range (List String) (group_file_paths_by_cid r.manifest) in
      let (_, w1, e1, k1) = >>=-eq-ok (on_disk (validate_upload us r)) _ w h in
      let (checked, kept1) = on_disk-eq-ok (validate_upload us r) w w1 tt e1 in
      let accepted = validate_upload-IsAccepted us r w.disk w1.disk checked in
      let (_, w2, e2, k2) = >>=-eq-ok _ (λ _. on_redis (record_scene us r)) w1 k1 in
      let (_, w3, e3, k3) =
        >>=-eq-ok (on_disk (for_each r.uploaded_files (save_uploaded us))) _ w1 e2 in
      let kept2 = (on_disk-eq-ok (for_each r.uploaded_files (save_uploaded us)) w1 w3 tt e3).1 in
      let files = (on_redis-eq-ok (for_each paths (record_file us root)) w3 w2 tt k3).0 in
      let scene =
        record_scene-IsRecordedScene us r w2.redis w'.redis
          (on_redis-eq-ok (record_scene us r) w2 w' tt k2).0 in
      let parcels =
        granted-AllParcels us r.metadata.pub_key r.scene.scene.parcels accepted.granted in
      let parsed = accepted-is_cid_v0 us v0 r accepted in
      let same : (p : String) → is_parcel_key p ≡ true → value_at w2.redis p ≡ value_at w.redis p =
        λ p parcel.
          record_files-same us root p paths w3.redis w2.redis parcel files
          ∙ ap (λ x. value_at x p) (kept2 ∙ kept1) in
      let names' : NamesCids is_cid_v0 (value_at w2.redis) =
        λ p c parcel e. names p c parcel (sym (same p parcel) ∙ e) in
      let content =
        record_scene-keeps_content r (value_at w2.redis) (value_at w'.redis) names' parcels parsed
          scene in
      (
        value_at w2.redis,
        record {
          parcels = parcels;
          plain_root = is_parcel_key_of_no_comma root (is_cid_v0-CidSyntax.no_comma root parsed);
          parsed_root = parsed;
          scene = scene;
          listed = λ c name named.
              let l =
                record_files-IsListed us r.manifest root w3.redis w2.redis files c name named in
              record {
                contents = l.contents;
                cid = l.cid;
                at_key = content ∙ l.at_key;
                found = l.found;
                named = l.named;
              };
        },
        same,
      )

  -- The parcels of the scene name it, and each other parcel keeps its key or loses it.
  pub stored_parcel :
      (r : UploadRequest) (d e : Keyspace)
      → IsStored r d e
      → (p : String) → contains p r.scene.scene.parcels ≡ true
      → e p ≡ some (str r.metadata.root_cid)
  stored_parcel r d e st p m =
      let parcel = contains-AllParcels p r.scene.scene.parcels st.parcels m in
      st.scene.scenes p (parcel-IsApart r.metadata.root_cid p parcel) ∙ rw m refl

  -- The parcels' keys name CIDs after an upload if they did before.
  pub process_upload-NamesCids :
      (r : UploadRequest) (w w' : World R D)
      → NamesCids is_cid_v0 (value_at w.redis)
      → process_upload us r w ≡ (ok tt, w')
      → NamesCids is_cid_v0 (value_at w'.redis)
  process_upload-NamesCids r w w' names h p c parcel e =
      let root = r.metadata.root_cid in
      let ps = r.scene.scene.parcels in
      let (d, st, same) = process_upload-IsStored r w w' names h in
      let final = sym (st.scene.scenes p (parcel-IsApart root p parcel)) ∙ e in
      elim (Bool-cases (contains p ps)) [
        | inl named ↦
            let final' = rw named at final in
            let is_root : root ≡ c = cc in rw (← is_root) st.parsed_root
        | inr other ↦
            let final' = rw (other, plain-ne-parcel root p st.plain_root parcel) at final in
            elim (Bool-cases (contains p (owners d ps))) [
              | inl gone ↦ let none_left = rw gone at final' in cc
              | inr kept ↦ names p c parcel (sym (same p parcel) ∙ rw kept at final')
            ]
      ]
