-- ===== src/Redis/Client.antt =====
-- data/redis.go: the client methods, over the commands of the Redis server. Timing metrics and log
-- lines are left out. `none` is Go's nil.
use content_service.Prelude.{
  String, Bool, true, List, [], ◌∷◌, Option, none, some, ◌==◌, ◌||◌, if◌then◌else◌, Map, insert,
  MapRange,
}
use content_service.Prelude.Int.{ℤ}
use content_service.Prelude.Decimal.{atoi}
use content_service.Prelude.Text.{◌+++◌}
use content_service.Go.{
  plain, error_text, Result, ok, err, panicked, Exec, pure, raise, lift, ◌>>=◌, ◌>>◌, on_error,
  inspect, for_each,
}
use content_service.Redis.{RedisServer}

abbrev pub uploaded_elements_key : String
uploaded_elements_key = "uploaded-content"

abbrev pub metadata_key_prefix : String
metadata_key_prefix = "metadata_"

abbrev pub content_key_prefix : String
content_key_prefix = "content_"

abbrev pub processed_set : String
processed_set = "processedSet"

abbrev pub root_scene_prefix : String
root_scene_prefix = "root-scene:"

-- An `interface{}` value of a metadata map: a string or an int.
pub data Field : Type 0 where
  text : String → Field
  number : ℤ → Field

abbrev pub is_number_field : String → Bool
is_number_field key = (key == "validityType") || ((key == "sequence") || (key == "timestamp"))

abbrev number_field : Option ℤ → Result Field
number_field none = err (plain "strconv.Atoi: invalid syntax")
number_field (some n) = ok (number n)

unfoldable pub typed_field : String → String → Result Field
typed_field key value = if is_number_field key then number_field (atoi value) else ok (text value)

abbrev cons_field : String → Result Field → Result (Map Field) → Result (Map Field)
cons_field key (ok v) (ok rest) = ok ((key, v) ∷ rest)
cons_field key (ok v) (err e) = err e
cons_field key (ok v) panicked = panicked
cons_field key (err e) rest = err e
cons_field key panicked rest = panicked

-- The loop of GetParcelMetadata over the entries of the hash.
unfoldable pub typed_fields : Map String → Result (Map Field)
unfolding typed_field
typed_fields [] = ok []
typed_fields ((key, value) ∷ m) = cons_field key (typed_field key value) (typed_fields m)

abbrev pub or_empty : Option String → String
or_empty none = ""
or_empty (some cid) = cid

module _ {S : Type 0} (srv : RedisServer S) where
  open srv use {get, del, hset, hmset, hget_all, sadd, sis_member, lpush, lrange_all}

  abbrev pub collection_of : String → Option String → Exec S (Option (Map String))
  collection_of prefix none = pure none
  collection_of prefix (some cid) = do h ← hget_all (prefix +++ cid); pure (some h)

  unfoldable pub get_parcel_information_from_collection :
      String → String → Exec S (Option (Map String))
  get_parcel_information_from_collection parcel_id prefix = do
    parcel_cid ← get parcel_id
    collection_of prefix parcel_cid

  abbrev pub typed_metadata : Option (Map String) → Exec S (Option (Map Field))
  typed_metadata none = pure none
  typed_metadata (some m) = do fields ← lift (typed_fields m); pure (some fields)

  unfoldable pub get_parcel_metadata : String → Exec S (Option (Map Field))
  get_parcel_metadata parcel_id = do
    parcel_meta ← get_parcel_information_from_collection parcel_id metadata_key_prefix
    typed_metadata parcel_meta

  -- `if res == nil { return nil, nil }`: the error of the lookup is dropped with the nil result.
  unfoldable pub get_parcel_content : String → Exec S (Option (Map String))
  get_parcel_content parcel_id =
      on_error (get_parcel_information_from_collection parcel_id content_key_prefix) λ e. pure none

  unfoldable pub store_content : String → String → String → Exec S Unit
  store_content key field value = hset (content_key_prefix +++ key) field value

  unfoldable pub store_metadata : String → Map String → Exec S Unit
  store_metadata key fields = hmset (metadata_key_prefix +++ key) fields

  unfoldable pub set_key : String → String → Exec S Unit
  set_key key value = srv.set key value

  unfoldable pub add_cid : String → Exec S Unit
  add_cid cid = sadd uploaded_elements_key cid

  unfoldable pub is_content_member : String → Exec S Bool
  is_content_member value = sis_member uploaded_elements_key value

  -- A parcel with no root CID has the empty one.
  unfoldable pub get_parcel_cid : String → Exec S String
  get_parcel_cid pid = do cid ← get pid; pure (or_empty cid)

  unfoldable pub processed_parcel : String → Exec S Bool
  processed_parcel pid = sis_member processed_set pid

  unfoldable pub set_processed_parcel : String → Exec S Unit
  set_processed_parcel pid = sadd processed_set pid

  -- The first loop of SetSceneParcels: the set of the root CIDs that the parcels have now.
  unfoldable pub old_scenes : Map Bool → List String → Exec S (Map Bool)
  old_scenes cids [] = pure cids
  old_scenes cids (p ∷ parcels) = do
    cid ← get_parcel_cid p
    old_scenes (insert cid true cids) parcels

  unfoldable pub delete_scene : String × Bool → Exec S Unit
  delete_scene entry =
      on_error (del entry.0)
        λ e. raise (plain ("redis error when cleaning old scenes: " +++ error_text e))

  unfoldable pub update_parcel : String → String → Exec S Unit
  update_parcel scene pid =
      on_error (set_key pid scene)
        λ e. raise (plain ("redis error when updating scene " +++ error_text e))

  -- The error of LPush is returned only after the parcels have been updated.
  unfoldable pub push_scene : String → List String → Exec S Unit
  push_scene scene parcels =
      inspect (lpush scene parcels) λ pushed. do for_each parcels (update_parcel scene); lift pushed

  -- What SetSceneParcels does with the set of old scenes. `ord` is the order in which the loop over
  -- the set visits it.
  unfoldable pub replace_scenes : MapRange → String → List String → Map Bool → Exec S Unit
  replace_scenes ord scene parcels cids = do
    for_each (ord.range Bool cids) delete_scene
    push_scene scene parcels

  unfoldable pub set_scene_parcels : MapRange → String → List String → Exec S Unit
  set_scene_parcels ord scene [] =
      raise (plain ("Trying to push empty parcels list for scene " +++ scene))
  set_scene_parcels ord scene (p ∷ parcels) = do
    cids ← old_scenes [] (p ∷ parcels)
    replace_scenes ord scene (p ∷ parcels) cids

  unfoldable pub clear_scene : String → Exec S Unit
  clear_scene cid = del cid

  unfoldable pub get_scene_parcels : String → Exec S (List String)
  get_scene_parcels cid = lrange_all cid

  unfoldable pub save_root_cid_scene_cid : String → String → Exec S Unit
  save_root_cid_scene_cid root_cid scene_cid = do
    srv.set (root_scene_prefix +++ root_cid) scene_cid
    srv.set (root_scene_prefix +++ scene_cid) root_cid

  abbrev pub found_or_nil : Option String → Exec S String
  found_or_nil none = raise (plain "redis: nil")
  found_or_nil (some cid) = pure cid

  unfoldable pub get_scene_cid : String → Exec S String
  get_scene_cid root_cid = do ret ← get (root_scene_prefix +++ root_cid); found_or_nil ret

  unfoldable pub get_root_cid : String → Exec S String
  get_root_cid scene_cid = do ret ← get (root_scene_prefix +++ scene_cid); found_or_nil ret
