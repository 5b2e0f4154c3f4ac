-- ===== src/Examples/Copies.antt =====
-- The theorems on the replication of one parcel from another server into an empty keyspace.
use content_service.Prelude.{◌≡◌, refl, List, [], ◌∷◌, none, some, All}
use content_service.Prelude.Int.{pos, ◌+ℤ◌, ◌-ℤ◌, ◌*ℤ◌, wrap64}
use content_service.Prelude.Maps.{insert}
use content_service.Prelude.Text.{has_comma, split_comma}
use content_service.Prelude.Decimal.{show_ℕ, show_ℤ}
use content_service.Go.{Result, ok, ◌>>=◌, on_error, inspect, for_each}
use content_service.World.{World, on_redis, on_disk}
use content_service.Http.{json}
use content_service.Redis.Client
use content_service.Redis.Keys.{is_parcel_key, starts_number}
use content_service.Redis.Scenes.{Keyspace}
use content_service.Storage.{local_storage, local_save_file}
use content_service.Upload.{metadata_fields}
use content_service.Parcels.{parcel_id, rect_to_parcels, minmax, rect_size, column, columns}
use content_service.Mappings.{
  ParcelContent, Scene, GetScenesParams, get_scenes, scenes_in, scene_cids, all_scenes, scenes_of,
}
use content_service.Replication.{
  Source, Arguments, mappings_url, validate_url, download_url, fetch_metadata, copy_element,
  copy_parcel, fetch_contents, replicate,
}
use content_service.Replication.Copied.{IsReplicated}
use content_service.Replication.Parcels.{
  HasParcels, replicate-IsReplicated, replicate-lists_no_scenes,
}
use content_service.Examples.Server.{server}
use content_service.Examples.Service.{Disk, files, in_order}
use content_service.Examples.Runs.{request, no_files}

abbrev copied_parcel : ParcelContent
copied_parcel = record {
  parcel_id = "7,8";
  contents = record { file = "scene.json"; cid = "Qm3" } ∷ [];
  root_cid = "QmRoot";
  publisher = "0xkey";
}

abbrev other_server : Source Disk
other_server = record {
  http_get = λ url d. (ok (record { body = ok (1 ∷ 2 ∷ 3 ∷ []); content_type = "text/plain" }), d);
  decode_contents = λ body. ok (copied_parcel ∷ []);
  decode_metadata = λ body. ok request.metadata;
}

abbrev arguments : Arguments
arguments = record { x1 = "7"; y1 = "8"; x2 = "7"; y2 = "8"; url = "http://node/" }

abbrev fresh : World Keyspace Disk
fresh = record { redis = λ key. none; disk = no_files }

abbrev copy_run : Result (Unit {0}) × World Keyspace Disk
copy_run = replicate server (local_storage files "") other_server arguments fresh

copies_run : copy_run ≡ (ok tt, copy_run.1)
unfolding replicate fetch_contents copy_parcel copy_element fetch_metadata mappings_url validate_url
    download_url ◌>>=◌ on_error for_each on_redis on_disk split_comma local_save_file
    metadata_fields insert show_ℤ show_ℕ
copies_run = refl

fetch_run :
    fetch_contents server (local_storage files "") other_server arguments no_files
    ≡ (ok (copied_parcel ∷ []), no_files)
unfolding fetch_contents mappings_url ◌>>=◌
fetch_run = refl

copied_shapes : HasParcels (copied_parcel ∷ [])
unfolding is_parcel_key starts_number has_comma
copied_shapes = (refl, refl, tt)

replicate-IsReplicated_example : All (IsReplicated copy_run.1.redis) (copied_parcel ∷ [])
replicate-IsReplicated_example =
    replicate-IsReplicated server (local_storage files "") other_server arguments fresh copy_run.1
      (copied_parcel ∷ []) no_files fetch_run copied_shapes copies_run

abbrev copied_rectangle : GetScenesParams
copied_rectangle = record { x1 = pos 7; y1 = pos 8; x2 = pos 7; y2 = pos 8 }

no_scenes_run :
    get_scenes server in_order (some copied_rectangle) copy_run.1.redis
    ≡ (ok (record { status = 200; body = json [] }), copy_run.1.redis)
unfolding replicate fetch_contents copy_parcel copy_element fetch_metadata mappings_url validate_url
    download_url ◌>>=◌ on_error for_each on_redis on_disk split_comma local_save_file
    metadata_fields insert show_ℤ show_ℕ get_scenes scenes_in scene_cids scenes_of all_scenes
    inspect Client.processed_parcel Client.get_scene_parcels Client.get_scene_cid
    Client.get_parcel_cid rect_to_parcels minmax rect_size column columns parcel_id ◌-ℤ◌ ◌+ℤ◌ ◌*ℤ◌
    wrap64
no_scenes_run = refl

abbrev no_scenes : List Scene
no_scenes = []

replicate-lists_no_scenes_example : no_scenes ≡ []
replicate-lists_no_scenes_example =
    replicate-lists_no_scenes server (local_storage files "") other_server in_order arguments fresh
      copy_run.1 (copied_parcel ∷ []) no_files copied_rectangle copy_run.1.redis
      (record { status = 200; body = json no_scenes }) no_scenes fetch_run copied_shapes refl
      copies_run no_scenes_run refl
