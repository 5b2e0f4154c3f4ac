-- ===== src/Mappings/ReadOnly.antt =====
-- The endpoints of mappings_handler.go and validate_handler.go only read: no key of Redis changes.
use content_service.Prelude.{
  ◌≡◌, String, Bool, true, List, [], ◌∷◌, Option, none, some, Map, MapRange, insert,
}
use content_service.Prelude.Int.{ℤ}
use content_service.Prelude.Text.{split_comma}
use content_service.Go.{Result, ok, err, panicked, pure, on_error}
use content_service.Redis.{RedisServer}
use content_service.Redis.Client.{
  Field, get_parcel_cid, processed_parcel, get_scene_parcels, get_scene_cid,
}
use content_service.Mappings.{
  ParcelContent, Scene, GetMappingsParams, GetScenesParams, nw_coord, se_coord, parcel_content,
  described, get_parcel_information, parcel_contents, mappings_reply, mappings_of, mappings_between,
  get_mappings, is_processed, scene_cids, parcels_or_nil, scenes_of, all_scenes, scenes_reply,
  scenes_in, scenes_within, get_scenes,
}
use content_service.Mappings.Info.{
  SceneContent, StringPair, ValidateParams, scene_of_root, scene_of_scene, scene_through_root,
  scene_from, scene_named, add_named, named_scenes, scene_contents, info_of, info_reply, get_info,
  metadata_reply, get_parcel_metadata_reply,
}
use content_service.Redis.Reads.{
  Reads, bind-Reads, inspect-Reads, pure-Reads, lift-Reads, raise-Reads, on_error-Reads, if-Reads,
  sis_member-Reads, lrange_all-Reads, get_parcel_metadata-Reads, get_parcel_content-Reads,
  get_parcel_cid-Reads, get_scene_cid-Reads, get_root_cid-Reads,
}

module _ {S : Type 0} (srv : RedisServer S) (order : MapRange) where
  open srv use {value_at}

  parcel_content-Reads :
      (pid : String) (m : Map String) (o : Option (Map Field))
      → Reads srv (parcel_content srv order pid m o)
  parcel_content-Reads pid m none = (pure-Reads srv)
  parcel_content-Reads pid m (some fields) =
      bind-Reads srv (lift-Reads srv)
        (λ root. bind-Reads srv (lift-Reads srv) (λ publisher. (pure-Reads srv)))

  described-Reads : (pid : String) (o : Option (Map String)) → Reads srv (described srv order pid o)
  described-Reads pid none = (pure-Reads srv)
  described-Reads pid (some m) =
      bind-Reads srv (get_parcel_metadata-Reads srv pid) (λ o. parcel_content-Reads pid m o)

  get_parcel_information-Reads : (pid : String) → Reads srv (get_parcel_information srv order pid)
  unfolding get_parcel_information
  get_parcel_information-Reads pid =
      bind-Reads srv (get_parcel_content-Reads srv pid) (λ o. described-Reads pid o)

  parcel_contents-Reads : (ps : List String) → Reads srv (parcel_contents srv order ps)
  unfolding parcel_contents
  parcel_contents-Reads [] = (pure-Reads srv)
  parcel_contents-Reads (p ∷ ps) =
      bind-Reads srv (get_parcel_information-Reads p)
        (λ c. bind-Reads srv (parcel_contents-Reads ps) (λ cs. (pure-Reads srv)))

  mappings_reply-Reads : (x : Result (List ParcelContent)) → Reads srv (mappings_reply srv order x)
  mappings_reply-Reads (ok contents) = (pure-Reads srv)
  mappings_reply-Reads (err e) = (pure-Reads srv)
  mappings_reply-Reads panicked = (lift-Reads srv)

  mappings_of-Reads : (o : Option (List String)) → Reads srv (mappings_of srv order o)
  mappings_of-Reads none = (pure-Reads srv)
  mappings_of-Reads (some ps) = inspect-Reads srv (parcel_contents-Reads ps) mappings_reply-Reads

  mappings_between-Reads : (a b : Result (ℤ × ℤ)) → Reads srv (mappings_between srv order a b)
  mappings_between-Reads (ok nw) (ok se) =
      bind-Reads srv (lift-Reads srv) (λ o. mappings_of-Reads o)
  mappings_between-Reads (ok nw) (err e) = (pure-Reads srv)
  mappings_between-Reads (ok nw) panicked = (lift-Reads srv)
  mappings_between-Reads (err e) b = (pure-Reads srv)
  mappings_between-Reads panicked b = (lift-Reads srv)

  get_mappings-Reads : (p : Option GetMappingsParams) → Reads srv (get_mappings srv order p)
  unfolding get_mappings
  get_mappings-Reads none = (pure-Reads srv)
  get_mappings-Reads (some p) = mappings_between-Reads (nw_coord p) (se_coord p)

  pub parcel_cid_or_empty-Reads :
      (pid : String) → Reads srv (on_error (get_parcel_cid srv pid) λ e. pure "")
  parcel_cid_or_empty-Reads pid =
      on_error-Reads srv (get_parcel_cid-Reads srv pid) (λ e. (pure-Reads srv))

  pub is_processed-Reads : (pid : String) → Reads srv (is_processed srv order pid)
  unfolding processed_parcel
  is_processed-Reads pid = on_error-Reads srv (sis_member-Reads srv _ pid) (λ e. (pure-Reads srv))

  scene_cids-Reads : (cids : Map Bool) (ps : List String) → Reads srv (scene_cids srv order cids ps)
  unfolding scene_cids processed_parcel
  scene_cids-Reads cids [] = (pure-Reads srv)
  scene_cids-Reads cids (p ∷ ps) =
      bind-Reads srv (on_error-Reads srv (get_parcel_cid-Reads srv p) (λ e. (pure-Reads srv)))
        (λ cid. if-Reads srv _ (scene_cids-Reads cids ps) (
          bind-Reads srv (on_error-Reads srv (sis_member-Reads srv _ p) (λ e. (pure-Reads srv)))
            (λ valid.
              if-Reads srv _ (scene_cids-Reads (insert cid true cids) ps)
                (scene_cids-Reads cids ps))))

  pub parcels_or_nil-Reads : (cid : String) → Reads srv (parcels_or_nil srv order cid)
  unfolding get_scene_parcels
  parcels_or_nil-Reads cid =
      on_error-Reads srv (lrange_all-Reads srv cid)
        (λ e. if-Reads srv _ (pure-Reads srv) (raise-Reads srv))

  scene_cid_or_empty-Reads :
      (cid : String) → Reads srv (on_error (get_scene_cid srv cid) λ e. pure "")
  scene_cid_or_empty-Reads cid =
      on_error-Reads srv (get_scene_cid-Reads srv cid) (λ e. (pure-Reads srv))

  pub scenes_of-Reads : (cid : String) → Reads srv (scenes_of srv order cid)
  unfolding scenes_of
  scenes_of-Reads cid =
      bind-Reads srv (parcels_or_nil-Reads cid)
        (λ ps. bind-Reads srv (scene_cid_or_empty-Reads cid) (λ scene. (pure-Reads srv)))

  all_scenes-Reads : (cids : Map Bool) → Reads srv (all_scenes srv order cids)
  unfolding all_scenes
  all_scenes-Reads [] = (pure-Reads srv)
  all_scenes-Reads (entry ∷ cids) =
      bind-Reads srv (scenes_of-Reads entry.0)
        (λ x. bind-Reads srv (all_scenes-Reads cids) (λ y. (pure-Reads srv)))

  pub scene_cids_all-Reads : (ps : List String) → Reads srv (scene_cids srv order [] ps)
  scene_cids_all-Reads ps = scene_cids-Reads [] ps

  scenes_in-Reads : (ps : List String) → Reads srv (scenes_in srv order ps)
  unfolding scenes_in
  scenes_in-Reads ps = bind-Reads srv (scene_cids-Reads [] ps) (λ cids. all_scenes-Reads _)

  scenes_reply-Reads : (x : Result (List Scene)) → Reads srv (scenes_reply srv order x)
  scenes_reply-Reads (ok scenes) = (pure-Reads srv)
  scenes_reply-Reads (err e) = (pure-Reads srv)
  scenes_reply-Reads panicked = (lift-Reads srv)

  scenes_within-Reads : (o : Option (List String)) → Reads srv (scenes_within srv order o)
  scenes_within-Reads none = (pure-Reads srv)
  scenes_within-Reads (some ps) = inspect-Reads srv (scenes_in-Reads ps) scenes_reply-Reads

  get_scenes-Reads : (p : Option GetScenesParams) → Reads srv (get_scenes srv order p)
  unfolding get_scenes
  get_scenes-Reads none = (pure-Reads srv)
  get_scenes-Reads (some p) = bind-Reads srv (lift-Reads srv) (λ o. scenes_within-Reads o)

  scene_of_root-Reads :
      (root : String) (ps : List String) → Reads srv (scene_of_root srv order root ps)
  scene_of_root-Reads root [] = (pure-Reads srv)
  scene_of_root-Reads root (p ∷ ps) =
      bind-Reads srv (scene_cid_or_empty-Reads root) (λ scene. (pure-Reads srv))

  scene_of_scene-Reads :
      (cid root : String) (ps : List String) → Reads srv (scene_of_scene srv order cid root ps)
  scene_of_scene-Reads cid root [] = (pure-Reads srv)
  scene_of_scene-Reads cid root (p ∷ ps) =
      if-Reads srv _ (scene_of_root-Reads cid (p ∷ ps)) (pure-Reads srv)

  scene_through_root-Reads : (cid : String) → Reads srv (scene_through_root srv order cid)
  scene_through_root-Reads cid =
      on_error-Reads srv
        (bind-Reads srv
          (on_error-Reads srv (get_root_cid-Reads srv cid)
            (λ e. if-Reads srv _ (pure-Reads srv) (raise-Reads srv)))
          (λ root.
            bind-Reads srv (parcels_or_nil-Reads root) (λ ps. scene_of_scene-Reads cid root ps)))
        (λ e. (pure-Reads srv))

  scene_from-Reads : (cid : String) (ps : List String) → Reads srv (scene_from srv order cid ps)
  scene_from-Reads cid [] = scene_through_root-Reads cid
  scene_from-Reads cid (p ∷ ps) = scene_of_root-Reads cid (p ∷ ps)

  named_scenes-Reads :
      (m : Map StringPair) (cids : List String) → Reads srv (named_scenes srv order m cids)
  unfolding named_scenes scene_named
  named_scenes-Reads m [] = (pure-Reads srv)
  named_scenes-Reads m (cid ∷ cids) =
      bind-Reads srv (bind-Reads srv (parcels_or_nil-Reads cid) (λ ps. scene_from-Reads cid ps))
        (λ found. named_scenes-Reads (add_named srv order found m) cids)

  scene_contents-Reads : (m : Map StringPair) → Reads srv (scene_contents srv order m)
  unfolding scene_contents
  scene_contents-Reads [] = (pure-Reads srv)
  scene_contents-Reads (entry ∷ m) =
      bind-Reads srv
        (on_error-Reads srv
          (bind-Reads srv (get_parcel_information-Reads entry.1.a) (λ c. (pure-Reads srv)))
          (λ e. (pure-Reads srv)))
        (λ found. bind-Reads srv (scene_contents-Reads m) (λ rest. (pure-Reads srv)))

  info_reply-Reads : (x : Result (List SceneContent)) → Reads srv (info_reply srv order x)
  info_reply-Reads (ok scenes) = (pure-Reads srv)
  info_reply-Reads (err e) = (pure-Reads srv)
  info_reply-Reads panicked = (lift-Reads srv)

  get_info-Reads : (cids : String) → Reads srv (get_info srv order cids)
  unfolding get_info info_of
  get_info-Reads cids = if-Reads srv _ (pure-Reads srv) (
      inspect-Reads srv
        (bind-Reads srv (named_scenes-Reads [] (split_comma cids)) (λ m. scene_contents-Reads _))
        info_reply-Reads)

  metadata_reply-Reads : (x : Result (Option (Map Field))) → Reads srv (metadata_reply srv order x)
  metadata_reply-Reads (ok none) = (pure-Reads srv)
  metadata_reply-Reads (ok (some m)) = (pure-Reads srv)
  metadata_reply-Reads (err e) = (pure-Reads srv)
  metadata_reply-Reads panicked = (lift-Reads srv)

  metadata-Reads : (p : Option ValidateParams) → Reads srv (get_parcel_metadata_reply srv order p)
  unfolding get_parcel_metadata_reply
  metadata-Reads none = (pure-Reads srv)
  metadata-Reads (some p) = inspect-Reads srv (get_parcel_metadata-Reads srv _) metadata_reply-Reads

  -- GetMappings, GetScenes, GetInfo and GetParcelMetadata change no key of Redis, whatever they are
  -- asked and whatever they answer, also where a command fails or the handler panics.
  pub endpoints-read :
      (m : Option GetMappingsParams) (p : Option GetScenesParams) (cids : String)
      (v : Option ValidateParams) (s : S)
      → (value_at (get_mappings srv order m s).1 ≡ value_at s)
        × (value_at (get_scenes srv order p s).1 ≡ value_at s)
        × (value_at (get_info srv order cids s).1 ≡ value_at s)
        × (value_at (get_parcel_metadata_reply srv order v s).1 ≡ value_at s)
  endpoints-read m p cids v s = (
    (get_mappings-Reads m).at s,
    (get_scenes-Reads p).at s,
    (get_info-Reads cids).at s,
    (metadata-Reads v).at s,
  )
