-- ===== src/Mappings.antt =====
-- internal/handlers/mappings_handler.go: the endpoints that list parcels and scenes. The binding of query parameters is a parameter:
-- a request comes as the bound struct, or `none`. Logging is left out.
pub mod Info
pub mod ReadOnly
pub mod Listing
pub mod Corners
pub mod Metadata
pub mod Served
pub mod Reads
pub mod Scenes
pub mod Shown
pub mod Unprocessed
use content_service.Prelude.{
  String, Bool, true, false, List, [], ◌∷◌, ◌++◌, Option, none, some, ◌==◌, if◌then◌else◌, map, Map,
  lookup, insert, MapRange,
}
use content_service.Prelude.Int.{ℤ, pos}
use content_service.Prelude.Text.{split_comma}
use content_service.Go.{
  GoError, plain, Result, ok, err, panicked, Exec, pure, raise, lift, ◌>>=◌, ◌>>◌, on_error,
  inspect,
}
use content_service.Http.{
  Reply, fail_with, reply_json, status_bad_request, status_not_found, status_internal_server_error,
  status_service_unavailable,
}
use content_service.Redis.{RedisServer}
use content_service.Redis.Client.{
  Field, text, number, get_parcel_metadata, get_parcel_content, get_parcel_cid, processed_parcel,
  get_scene_parcels, get_scene_cid, get_root_cid,
}
use content_service.Parcels.{parcel_id, parse_coordinates, rect_to_parcels}

pub record ContentElement : Type 0 where
  pub file : String
  pub cid : String

pub record ParcelContent : Type 0 where
  pub parcel_id : String
  pub contents : List ContentElement
  pub root_cid : String
  pub publisher : String

pub record Scene : Type 0 where
  pub parcel_id : String
  pub root_cid : String
  pub scene_cid : String

pub record GetMappingsParams : Type 0 where
  pub nw : String
  pub se : String

pub record GetScenesParams : Type 0 where
  pub x1 : ℤ
  pub y1 : ℤ
  pub x2 : ℤ
  pub y2 : ℤ

unfoldable pub nw_coord : GetMappingsParams → Result (ℤ × ℤ)
nw_coord sa = parse_coordinates sa.nw

unfoldable pub se_coord : GetMappingsParams → Result (ℤ × ℤ)
se_coord sa = parse_coordinates sa.se

-- `metadata[key].(string)`: a missing key or a number fails the type assertion.
abbrev pub text_or_panic : Option Field → Result String
text_or_panic none = panicked
text_or_panic (some (text s)) = ok s
text_or_panic (some (number n)) = panicked

abbrev pub string_field : String → Map Field → Result String
string_field key m = text_or_panic (lookup key m)

abbrev pub content_element : String × String → ContentElement
content_element entry = record { file = entry.0; cid = entry.1 }

-- The error of a read that finds nothing, redis.Nil, is the one that callers let pass.
abbrev pub is_nil_error : GoError → Bool
is_nil_error (plain message) = message == "redis: nil"
is_nil_error _ = false

module _ {S : Type 0} (srv : RedisServer S) (order : MapRange) where
  abbrev parcel_content : String → Map String → Option (Map Field) → Exec S (Option ParcelContent)
  parcel_content pid content none = pure none
  parcel_content pid content (some metadata) = do
    root ← lift (string_field "root_cid" metadata)
    publisher ← lift (string_field "pubkey" metadata)
    pure (
        some (record {
          parcel_id = pid;
          contents = map content_element (order.range String content);
          root_cid = root;
          publisher = publisher;
        }))

  abbrev described : String → Option (Map String) → Exec S (Option ParcelContent)
  described pid none = pure none
  described pid (some content) = do
    metadata ← get_parcel_metadata srv pid
    parcel_content pid content metadata

  unfoldable pub get_parcel_information : String → Exec S (Option ParcelContent)
  get_parcel_information pid = do content ← get_parcel_content srv pid; described pid content

  abbrev add_content : Option ParcelContent → List ParcelContent → List ParcelContent
  add_content none contents = contents
  add_content (some c) contents = c ∷ contents

  -- The loop of GetMappings.
  unfoldable pub parcel_contents : List String → Exec S (List ParcelContent)
  parcel_contents [] = pure []
  parcel_contents (p ∷ ps) = do
    content ← get_parcel_information p
    contents ← parcel_contents ps
    pure (add_content content contents)

  abbrev mappings_reply : Result (List ParcelContent) → Exec S (Reply (List ParcelContent))
  mappings_reply (ok contents) = pure (reply_json contents)
  mappings_reply (err e) =
      pure (fail_with status_service_unavailable "unexpected error, try again later")
  mappings_reply panicked = lift panicked

  abbrev mappings_of : Option (List String) → Exec S (Reply (List ParcelContent))
  mappings_of none = pure (fail_with status_bad_request "too many parcels requested")
  mappings_of (some parcels) = inspect (parcel_contents parcels) mappings_reply

  abbrev mappings_between : Result (ℤ × ℤ) → Result (ℤ × ℤ) → Exec S (Reply (List ParcelContent))
  mappings_between (ok (x1, y1)) (ok (x2, y2)) = do
    parcels ← lift (rect_to_parcels x1 y1 x2 y2 (pos 200))
    mappings_of parcels
  mappings_between (ok nw) (err e) = pure (fail_with status_bad_request "invalid query params")
  mappings_between (ok nw) panicked = lift panicked
  mappings_between (err e) se = pure (fail_with status_bad_request "invalid query params")
  mappings_between panicked se = lift panicked

  unfoldable pub get_mappings : Option GetMappingsParams → Exec S (Reply (List ParcelContent))
  get_mappings none = pure (fail_with status_bad_request "invalid query params")
  get_mappings (some params) = mappings_between (nw_coord params) (se_coord params)

  -- An error of ProcessedParcel counts as false.
  abbrev pub is_processed : String → Exec S Bool
  is_processed pid = on_error (processed_parcel srv pid) λ e. pure false

  -- The first loop of GetScenes: the root CIDs of the processed parcels. GetParcelCID gives the
  -- empty text with each of its errors, so such a parcel is left out.
  unfoldable pub scene_cids : Map Bool → List String → Exec S (Map Bool)
  scene_cids cids [] = pure cids
  scene_cids cids (p ∷ pids) = do
    cid ← on_error (get_parcel_cid srv p) λ e. pure ""
    if cid == "" then scene_cids cids pids else (do
      valid ← is_processed p
      if valid then scene_cids (insert cid true cids) pids else scene_cids cids pids)

  -- GetSceneParcels, where redis.Nil is no parcels.
  abbrev parcels_or_nil : String → Exec S (List String)
  parcels_or_nil cid =
      on_error (get_scene_parcels srv cid) λ e. if is_nil_error e then pure [] else raise e

  abbrev scene_entry : String → String → String → Scene
  scene_entry root scene pid = record { parcel_id = pid; root_cid = root; scene_cid = scene }

  -- The scenes of one root CID: an error of GetSceneCid leaves the scene's CID empty.
  unfoldable pub scenes_of : String → Exec S (List Scene)
  scenes_of cid = do
    parcels ← parcels_or_nil cid
    scene ← on_error (get_scene_cid srv cid) λ e. pure ""
    pure (map (scene_entry cid scene) parcels)

  -- The second loop of GetScenes.
  unfoldable pub all_scenes : Map Bool → Exec S (List Scene)
  all_scenes [] = pure []
  all_scenes (entry ∷ cids) = do
    scenes ← scenes_of entry.0
    rest ← all_scenes cids
    pure (scenes ++ rest)

  abbrev scenes_reply : Result (List Scene) → Exec S (Reply (List Scene))
  scenes_reply (ok scenes) = pure (reply_json scenes)
  scenes_reply (err e) =
      pure (fail_with status_internal_server_error "unexpected error, try again later")
  scenes_reply panicked = lift panicked

  unfoldable pub scenes_in : List String → Exec S (List Scene)
  scenes_in pids = do cids ← scene_cids [] pids; all_scenes (order.range Bool cids)

  abbrev scenes_within : Option (List String) → Exec S (Reply (List Scene))
  scenes_within none = pure (fail_with status_bad_request "too many parcels requested")
  scenes_within (some pids) = inspect (scenes_in pids) scenes_reply

  unfoldable pub get_scenes : Option GetScenesParams → Exec S (Reply (List Scene))
  get_scenes none = pure (fail_with status_bad_request "invalid query params")
  get_scenes (some p) = do
    pids ← lift (rect_to_parcels p.x1 p.y1 p.x2 p.y2 (pos 200))
    scenes_within pids
