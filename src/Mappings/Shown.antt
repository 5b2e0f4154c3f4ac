-- ===== src/Mappings/Shown.antt =====
-- GetScenes (internal/handlers/mappings_handler.go) after an upload: it answers, with every parcel of
-- the scene that was uploaded.
use content_service.Prelude.{
  ◌≡◌, refl, ap, ◌∙◌, String, true, false, List, [], ◌∷◌, ◌++◌, reverse, some, ◌==◌, contains,
  contains-append, contains-reverse, eq_refl, eq_iff, Bool-cases, inl, inr, arith, All,
}
use content_service.Prelude.Int.{pos}
use content_service.Go.{ok}
use content_service.Http.{reply_json}
use content_service.World.{World}
use content_service.Parcels.{rect_to_parcels}
use content_service.Redis.Answering.{IsAnswering}
use content_service.Redis.Scenes.{Keyspace}
use content_service.Redis.Client.{processed_set}
use content_service.Redis.Ownership.{not_named}
use content_service.Redis.Types.{IsTyped}
use content_service.Upload.{UploadRequest}
use content_service.Upload.Kept.{IsDone, IsApart}
use content_service.Upload.Names.{
  NamesCids, IsStored, process_upload-IsStored, process_upload-NamesCids, stored_parcel,
}
use content_service.Upload.Cids.{GivesCidsV0, is_cid_v0, is_cid_v0-KeySyntax}
use content_service.Upload.Types.{process_upload-IsTyped}
use content_service.Upload.Service.{UploadService, process_upload}
use content_service.Mappings.{Scene, GetScenesParams, get_scenes}
use content_service.Mappings.Reads.{has_scene}
use content_service.Mappings.Scenes.{IsShown, get_scenes-lists}

All-contains :
    (P : String → Type 0) (x : String) (xs : List String) → All P xs → contains x xs ≡ true → P x
All-contains P x [] h m = cc
All-contains P x (y ∷ ys) (h, hs) m = elim (Bool-cases (y == x)) [
  | inl same ↦ rw (← (eq_iff y x).0 same) h
  | inr other ↦ All-contains P x ys hs (ground (arith, m, other))
]

module _ {R D : Type 0} (us : UploadService R D) (v0 : GivesCidsV0 us.ipfs_node) where
  open us use {redis, order}
  open redis use {value_at}

  other_text : (k c : String) → is_cid_v0 k ≡ false → is_cid_v0 c ≡ true → (k == c) ≡ false
  other_text k c unparsed parsed = elim (Bool-cases (k == c)) [
    | inl same ↦ let path = ap is_cid_v0 ((eq_iff k c).0 same) in cc
    | inr other ↦ other
  ]

  root-IsApart : (root : String) → is_cid_v0 root ≡ true → IsApart root root
  root-IsApart root parsed = record {
    processed = other_text processed_set root is_cid_v0-KeySyntax.no_processed_key parsed;
    metadata = other_text _ root (is_cid_v0-KeySyntax.no_metadata_key root) parsed;
    root_scenes = λ c. other_text _ root (is_cid_v0-KeySyntax.no_root_scene_key c) parsed;
  }

  -- A parcel of the uploaded scene is shown wherever one of the scene's parcels is asked for.
  stored-IsShown :
      (r : UploadRequest) (d e : Keyspace) (pids : List String) (seen parcel : String)
      → IsStored us v0 r d e
      → contains seen pids ≡ true
      → contains seen r.scene.scene.parcels ≡ true
      → contains parcel r.scene.scene.parcels ≡ true
      → IsShown e pids parcel r.metadata.root_cid
  stored-IsShown r d e pids seen parcel st inside owned member =
      let i = All-contains (IsDone e) seen r.scene.scene.parcels st.scene.processed owned in
      record {
        seen = seen;
        inside = inside;
        owner = stored_parcel us v0 r d e st seen owned;
        done = i.done;
        processed = i.at_key;
        is_done = i.is_done;
        parcels = reverse r.scene.scene.parcels ++ st.scene.found;
        at_root =
            st.scene.scenes r.metadata.root_cid (root-IsApart r.metadata.root_cid st.parsed_root)
            ∙ rw
                (
                  not_named r.metadata.root_cid r.scene.scene.parcels st.plain_root st.parcels,
                  eq_refl r.metadata.root_cid,
                )
                refl;
        listed = ground (
          arith,
          contains-append parcel (reverse r.scene.scene.parcels) st.scene.found,
          contains-reverse parcel r.scene.scene.parcels,
          member,
        );
      }

  -- If the IPFS node computes CIDs of version 0, the keyspace is typed, the parcels'
  -- keys name such CIDs and the server answers its reads, then after ProcessUpload returned nil GetScenes
  -- answers for every rectangle that is not too large and has one of the scene's parcels, and its
  -- reply has each of the scene's parcels, with the root CID of the upload.
  pub process_upload-get_scenes :
      (up : IsAnswering redis) (r : UploadRequest) (w w' : World R D) (p : GetScenesParams)
      (pids : List String) (seen : String)
      → IsTyped is_cid_v0 (value_at w.redis)
      → NamesCids is_cid_v0 (value_at w.redis)
      → process_upload us r w ≡ (ok tt, w')
      → rect_to_parcels p.x1 p.y1 p.x2 p.y2 (pos 200) ≡ ok (some pids)
      → contains seen pids ≡ true
      → contains seen r.scene.scene.parcels ≡ true
      → (scenes : List Scene) × (t : R) × (get_scenes redis order (some p) w'.redis
          ≡ (ok (reply_json scenes), t))
        × ((parcel : String)
            → contains parcel r.scene.scene.parcels ≡ true
            → has_scene parcel r.metadata.root_cid scenes ≡ true)
  process_upload-get_scenes up r w w' p pids seen typed names h rect inside owned =
      let (d, st, _) = process_upload-IsStored us v0 r w w' names h in
      let (scenes, t, run, shown) =
        get_scenes-lists redis order is_cid_v0-KeySyntax up p pids w'.redis
          (process_upload-IsTyped us v0 r w w' typed h)
          (process_upload-NamesCids us v0 r w w' names h) rect in
      (
        scenes,
        t,
        run,
        λ parcel member.
            shown parcel r.metadata.root_cid
              (stored-IsShown r d (value_at w'.redis) pids seen parcel st inside owned member),
      )
