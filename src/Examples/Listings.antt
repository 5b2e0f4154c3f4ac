-- ===== src/Examples/Listings.antt =====
-- The theorems on the types of the keyspace and on GetScenes after an upload.
use content_service.Prelude.{◌≡◌, refl, fun_ext, String, true, List, [], ◌∷◌, some, none, contains}
use content_service.Prelude.Int.{pos, ◌-ℤ◌, ◌+ℤ◌, ◌*ℤ◌, wrap64}
use content_service.Prelude.Decimal.{show_ℕ, show_ℤ}
use content_service.Prelude.Text.{has_comma}
use content_service.Go.{ok}
use content_service.Http.{reply_json}
use content_service.Parcels.{parcel_id, rect_to_parcels, minmax, rect_size, column, columns}
use content_service.Redis.Keys.{is_parcel_key, starts_number, first_code}
use content_service.Redis.Scenes.{Keyspace, set_scene_parcels-eq-scene_set}
use content_service.Redis.Types.{IsTyped, scene_set-IsTyped, key_shape, has_shape, Shape}
use content_service.Upload.Cids.{is_cid_v0, is_cid_v0-CidSyntax, is_cid_v0-KeySyntax}
use content_service.Upload.Service.{process_upload}
use content_service.Reachable.{Reach-IsTyped}
use content_service.Mappings.{Scene, GetScenesParams, get_scenes}
use content_service.Mappings.Reads.{has_scene}
use content_service.Mappings.Scenes.{IsShown, get_scenes-lists}
use content_service.Mappings.Shown.{process_upload-get_scenes}
use content_service.Examples.Server.{server}
use content_service.Examples.Service.{service, in_order, node_v0}
use content_service.Examples.Runs.{request, world, older, old_run, old_scene_run, upload_run}
use content_service.Examples.Steps.{after_read, two_requests, older-NamesCids, answering}
use content_service.Examples.Endpoints.{handler}

none_fits : (s : Shape) → has_shape s none ≡ true
none_fits s = refl

older-IsTyped : IsTyped is_cid_v0 old_run.1
unfolding is_parcel_key starts_number has_comma first_code
older-IsTyped =
    let (_, xs, _, final) =
      set_scene_parcels-eq-scene_set server in_order "QmOld" older (λ key. none) old_run.1
        old_scene_run in
    rw (fun_ext final) (
      scene_set-IsTyped is_cid_v0-CidSyntax.no_comma (λ key. none) "QmOld" older xs
        (record { shapes = λ k. none_fits (key_shape is_cid_v0 k) }) refl (refl, (refl, tt)))

Reach-IsTyped_example : IsTyped is_cid_v0 after_read.redis
Reach-IsTyped_example = Reach-IsTyped handler service node_v0 older-IsTyped two_requests

-- The parcels "1,2" and "1,3", which the upload takes.
abbrev tile : GetScenesParams
tile = record { x1 = pos 1; y1 = pos 2; x2 = pos 1; y2 = pos 3 }

abbrev tile_ids : List String
tile_ids = "1,2" ∷ "1,3" ∷ []

tile_run : rect_to_parcels (pos 1) (pos 2) (pos 1) (pos 3) (pos 200) ≡ ok (some tile_ids)
unfolding rect_to_parcels minmax rect_size column columns parcel_id ◌-ℤ◌ ◌+ℤ◌ ◌*ℤ◌ wrap64 show_ℤ
    show_ℕ
tile_run = refl

get_scenes-lists_example :
    (scenes : List Scene) × (t : Keyspace) × (get_scenes server in_order (some tile) old_run.1
      ≡ (ok (reply_json scenes), t))
    × ((parcel root : String)
        → IsShown old_run.1 tile_ids parcel root
        → has_scene parcel root scenes ≡ true)
get_scenes-lists_example =
    get_scenes-lists server in_order is_cid_v0-KeySyntax answering tile tile_ids old_run.1
      older-IsTyped older-NamesCids tile_run

process_upload-get_scenes_example :
    (scenes : List Scene) × (t : Keyspace) × (get_scenes server in_order
        (some tile)
        (process_upload service request world).1.redis
      ≡ (ok (reply_json scenes), t))
    × ((parcel : String)
        → contains parcel request.scene.scene.parcels ≡ true
        → has_scene parcel "QmRoot" scenes ≡ true)
process_upload-get_scenes_example =
    process_upload-get_scenes service node_v0 answering request world
      (process_upload service request world).1 tile tile_ids "1,3" older-IsTyped older-NamesCids
      upload_run tile_run refl refl
