-- ===== src/Mappings/Info.antt =====
-- internal/handlers/mappings_handler.go: GetInfo; and validate_handler.go: the metadata of one parcel.
use content_service.Prelude.{
  String, List, [], ◌∷◌, ◌++◌, Option, none, some, ◌==◌, if◌then◌else◌, Map, insert, MapRange,
}
use content_service.Prelude.Int.{ℤ}
use content_service.Prelude.Text.{split_comma}
use content_service.Go.{
  Result, ok, err, panicked, Exec, pure, raise, lift, ◌>>=◌, on_error, inspect,
}
use content_service.Http.{
  Reply, fail_with, reply_json, status_bad_request, status_not_found, status_internal_server_error,
}
use content_service.Redis.{RedisServer}
use content_service.Redis.Client.{Field, get_parcel_metadata, get_scene_cid, get_root_cid}
use content_service.Parcels.{parcel_id}
use content_service.Mappings.{ParcelContent, is_nil_error, parcels_or_nil, get_parcel_information}

pub record SceneContent : Type 0 where
  pub root_cid : String
  pub scene_cid : String
  pub content : Option ParcelContent

pub record StringPair : Type 0 where
  pub a : String
  pub b : String

pub record ValidateParams : Type 0 where
  pub x : ℤ
  pub y : ℤ

module _ {S : Type 0} (srv : RedisServer S) (order : MapRange) where
  -- The scene that a CID of the query names, as its root CID and one of its parcels; `none` is
  -- `continue`. The parcels of the root CID itself come first, then those of the root CID of a
  -- scene CID.
  abbrev pub scene_of_root : String → List String → Exec S (Option (String × StringPair))
  scene_of_root root [] = pure none
  scene_of_root root (p ∷ ps) = do
    scene ← on_error (get_scene_cid srv root) λ e. pure ""
    pure (some (root, record { a = p; b = scene }))

  -- A scene CID that is the empty text is looked up as a root CID again.
  abbrev pub scene_of_scene : String → String → List String → Exec S (Option (String × StringPair))
  scene_of_scene cid root [] = pure none
  scene_of_scene cid root (p ∷ ps) =
      if cid == ""
      then scene_of_root cid (p ∷ ps)
      else pure (some (root, record { a = p; b = cid }))

  -- GetRootCid, where redis.Nil is the empty text, and GetSceneParcels of its result; any other
  -- error skips the CID.
  abbrev pub scene_through_root : String → Exec S (Option (String × StringPair))
  scene_through_root cid =
      on_error
        (do
          root ← on_error (get_root_cid srv cid) λ e. if is_nil_error e then pure "" else raise e
          ps ← parcels_or_nil srv order root
          scene_of_scene cid root ps)
        λ e. pure none

  abbrev pub scene_from : String → List String → Exec S (Option (String × StringPair))
  scene_from cid [] = scene_through_root cid
  scene_from cid (p ∷ ps) = scene_of_root cid (p ∷ ps)

  unfoldable pub scene_named : String → Exec S (Option (String × StringPair))
  scene_named cid = do ps ← parcels_or_nil srv order cid; scene_from cid ps

  abbrev pub add_named : Option (String × StringPair) → Map StringPair → Map StringPair
  add_named none parcels = parcels
  add_named (some (root, pair)) parcels = insert root pair parcels

  -- The first loop of GetInfo.
  unfoldable pub named_scenes : Map StringPair → List String → Exec S (Map StringPair)
  named_scenes parcels [] = pure parcels
  named_scenes parcels (cid ∷ cids) = do
    found ← scene_named cid
    named_scenes (add_named found parcels) cids

  abbrev scene_content : String × StringPair → Option ParcelContent → List SceneContent
  scene_content entry content =
      record { root_cid = entry.0; scene_cid = entry.1.b; content = content } ∷ []

  -- The second loop of GetInfo: a scene whose parcel cannot be read is left out.
  unfoldable pub scene_contents : Map StringPair → Exec S (List SceneContent)
  scene_contents [] = pure []
  scene_contents (entry ∷ parcels) = do
    found ←
        on_error
          (do
            content ← get_parcel_information srv order entry.1.a
            pure (scene_content entry content))
          λ e. pure []
    rest ← scene_contents parcels
    pure (found ++ rest)

  unfoldable pub info_of : List String → Exec S (List SceneContent)
  info_of cids = do parcels ← named_scenes [] cids; scene_contents (order.range StringPair parcels)

  abbrev pub info_reply : Result (List SceneContent) → Exec S (Reply (List SceneContent))
  info_reply (ok scenes) = pure (reply_json scenes)
  info_reply (err e) =
      pure (fail_with status_internal_server_error "unexpected error, try again later")
  info_reply panicked = lift panicked

  unfoldable pub get_info : String → Exec S (Reply (List SceneContent))
  get_info cids_param =
      if cids_param == ""
      then pure (fail_with status_bad_request "invalid params")
      else inspect (info_of (split_comma cids_param)) info_reply

  abbrev pub metadata_reply : Result (Option (Map Field)) → Exec S (Reply (Map Field))
  metadata_reply (ok none) = pure (fail_with status_not_found "parcel metadata not found")
  metadata_reply (ok (some m)) = pure (reply_json m)
  metadata_reply (err e) =
      pure (fail_with status_internal_server_error "unexpected error, try again later")
  metadata_reply panicked = lift panicked

  -- GetParcelMetadata of validate_handler.go.
  unfoldable pub get_parcel_metadata_reply : Option ValidateParams → Exec S (Reply (Map Field))
  get_parcel_metadata_reply none = pure (fail_with status_bad_request "invalid query params")
  get_parcel_metadata_reply (some p) =
      inspect (get_parcel_metadata srv (parcel_id p.x p.y)) metadata_reply
