-- ===== src/Redis/Scenes.antt =====
-- SetSceneParcels of data/redis.go against a description of the keyspace that it leaves.
use content_service.Prelude.{
  ◌≡◌, ◌≢◌, sym, ap, ◌∙◌, String, Bool, true, List, [], ◌∷◌, ◌++◌, reverse, Option, none, some,
  ◌==◌, ◌||◌, if◌then◌else◌, Map, insert, contains, has_key, has_key-insert, has_key-perm, MapRange,
  arith,
}
use mathlib.Core.Option
use content_service.Go.{ok, pure, for_each}
use content_service.Go.Inversion.{>>=-eq-ok, pure-eq-ok, on_error-raise-eq-ok, inspect-lift-eq-ok}
use content_service.Redis.{Value, str, list, RedisServer, list_of}
use content_service.Redis.Client.{
  or_empty, get_parcel_cid, old_scenes, delete_scene, update_parcel, set_key, push_scene,
  replace_scenes, set_scene_parcels,
}

-- The root CID that a parcel's key holds, the empty text where it holds none.
abbrev pub owner_of : Option Value → String
owner_of (some (str c)) = c
owner_of _ = ""

abbrev pub Keyspace : Type 0
Keyspace = String → Option Value

abbrev pub owners : Keyspace → List String → List String
owners d [] = []
owners d (p ∷ ps) = owner_of (d p) ∷ owners d ps

-- The keyspace without the scenes that owned the parcels.
abbrev pub without_scenes : Keyspace → List String → Keyspace
without_scenes d ps j = if contains j (owners d ps) then none else d j

-- What SetSceneParcels leaves at each key, where `xs` is the list that LPUSH found.
abbrev pub scene_set : Keyspace → String → List String → List String → Keyspace
scene_set d scene ps xs j =
    if contains j ps
    then some (str scene)
    else if scene == j
    then some (list (reverse ps ++ xs))
    else without_scenes d ps j

or_empty-owner_of :
    (r : Option String) (v : Option Value) → v ≡ Option.map str r → or_empty r ≡ owner_of v
or_empty-owner_of none v e = rw e
or_empty-owner_of (some c) v e = rw e

module _ {S : Type 0} (srv : RedisServer S) where
  open srv use {value_at, get, del, lpush, get_reads, get_ok}

  get_parcel_cid_ok :
      (p : String) (s t : S) (c : String)
      → get_parcel_cid srv p s ≡ (ok c, t)
      → (value_at t ≡ value_at s) × (c ≡ owner_of (value_at s p))
  unfolding get_parcel_cid
  get_parcel_cid_ok p s t c h =
      let (r, u, e, k) = >>=-eq-ok (get p) (λ cid. pure (or_empty cid)) s h in
      let (same, ends) = pure-eq-ok (or_empty r) c u t k in
      (
        ap value_at (sym ends) ∙ ap (λ x. value_at x.1) (sym e) ∙ get_reads p s,
        sym same ∙ or_empty-owner_of r (value_at s p) (get_ok p s u r e),
      )

  pub old_scenes_ok :
      (cids : Map Bool) (ps : List String) (s t : S) (out : Map Bool)
      → old_scenes srv cids ps s ≡ (ok out, t)
      → (value_at t ≡ value_at s)
        × ((j : String) → has_key j out ≡ (has_key j cids || contains j (owners (value_at s) ps)))
  unfolding old_scenes
  old_scenes_ok cids [] s t out h =
      let (same, ends) = pure-eq-ok cids out s t h in
      (ap value_at (sym ends), λ j. rw (sym same) (ground arith))
  old_scenes_ok cids (p ∷ ps) s t out h =
      let (c, u, e, k) =
        >>=-eq-ok (get_parcel_cid srv p) (λ cid. old_scenes srv (insert cid true cids) ps) s h in
      let (same, owner) = get_parcel_cid_ok p s u c e in
      let (same', keys) = old_scenes_ok (insert c true cids) ps u t out k in
      (
        same' ∙ same,
        λ j. ground (
          arith,
          rw same at (keys j),
          has_key-insert c j true cids,
          rw owner at (has_key-insert c j true cids),
          owner,
        ),
      )

  delete_scene_ok :
      (entry : String × Bool) (s t : S)
      → delete_scene srv entry s ≡ (ok tt, t)
      → (j : String) → value_at t j ≡ (if entry.0 == j then none else value_at s j)
  unfolding delete_scene
  delete_scene_ok entry s t h = srv.del_ok entry.0 s t (on_error-raise-eq-ok (del entry.0) _ s h)

  update_parcel_ok :
      (scene p : String) (s t : S)
      → update_parcel srv scene p s ≡ (ok tt, t)
      → (j : String) → value_at t j ≡ (if p == j then some (str scene) else value_at s j)
  unfolding update_parcel set_key
  update_parcel_ok scene p s t h =
      srv.set_ok p scene s t (on_error-raise-eq-ok (srv.set p scene) _ s h)

  delete_scenes_ok :
      (cids : Map Bool) (s t : S)
      → for_each cids (delete_scene srv) s ≡ (ok tt, t)
      → (j : String) → value_at t j ≡ (if has_key j cids then none else value_at s j)
  unfolding for_each
  delete_scenes_ok [] s t h j = ap (λ x. value_at x.1 j) (sym h)
  delete_scenes_ok (entry ∷ cids) s t h j =
      let (_, u, e, k) =
        >>=-eq-ok (delete_scene srv entry) (λ _. for_each cids (delete_scene srv)) s h in
      let later = delete_scenes_ok cids u t k j in
      let first = delete_scene_ok entry s u e j in ground (arith, later, first)

  update_parcels_ok :
      (scene : String) (ps : List String) (s t : S)
      → for_each ps (update_parcel srv scene) s ≡ (ok tt, t)
      → (j : String) → value_at t j ≡ (if contains j ps then some (str scene) else value_at s j)
  unfolding for_each
  update_parcels_ok scene [] s t h j = ap (λ x. value_at x.1 j) (sym h)
  update_parcels_ok scene (p ∷ ps) s t h j =
      let (_, u, e, k) =
        >>=-eq-ok (update_parcel srv scene p) (λ _. for_each ps (update_parcel srv scene)) s h in
      let later = update_parcels_ok scene ps u t k j in
      let first = update_parcel_ok scene p s u e j in ground (arith, later, first)

  -- The two last steps, from a keyspace `d` that the deletions left.
  push_scene_ok :
      (scene : String) (ps : List String) (s t : S)
      → push_scene srv scene ps s ≡ (ok tt, t)
      → (xs : List String) × (list_of (value_at s scene) ≡ some xs)
        × ((j : String)
            → value_at t j ≡ (
                if contains j ps
                then some (str scene)
                else if scene == j
                then some (list (reverse ps ++ xs))
                else value_at s j))
  unfolding push_scene
  push_scene_ok scene ps s t h =
      let (_, u, e, k) =
        inspect-lift-eq-ok (lpush scene ps) (for_each ps (update_parcel srv scene)) s h in
      let (xs, found, pushed) = srv.lpush_ok scene ps s u e in
      (xs, found, λ j. ground (arith, update_parcels_ok scene ps u t k j, pushed j))

  -- The deletions and the two last steps, after the owners were read from a keyspace `d` that may
  -- have changed since.
  pub replace_scenes_ok :
      (ord : MapRange) (scene : String) (ps : List String) (d : Keyspace) (cids : Map Bool)
      (s t : S)
      → ((j : String) → has_key j cids ≡ contains j (owners d ps))
      → replace_scenes srv ord scene ps cids s ≡ (ok tt, t)
      → (xs : List String) × (list_of
            (if contains scene (owners d ps) then none else value_at s scene)
          ≡ some xs)
        × ((j : String)
            → value_at t j ≡ (
                if contains j ps
                then some (str scene)
                else if scene == j
                then some (list (reverse ps ++ xs))
                else if contains j (owners d ps)
                then none
                else value_at s j))
  unfolding replace_scenes
  replace_scenes_ok ord scene ps d cids s t keys h =
      let (_, v, e, k) =
        >>=-eq-ok (for_each (ord.range Bool cids) (delete_scene srv)) (λ _. push_scene srv scene ps)
          s h in
      let deleted : (j : String)
          → value_at v j ≡ (if contains j (owners d ps) then none else value_at s j) =
        λ j. ground (
          arith,
          delete_scenes_ok (ord.range Bool cids) s v e j,
          has_key-perm j (ord.range_perm Bool cids),
          keys j,
        ) in
      let (xs, found, final) = push_scene_ok scene ps v t k in
      (xs, ap list_of (sym (deleted scene)) ∙ found, λ j. ground (arith, final j, deleted j))

  -- A call of SetSceneParcels that returns nil had at least one parcel, and leaves every key as
  -- `scene_set` says: the parcels name the scene, the scene's list has the parcels in front of what
  -- LPUSH found, the lists of the scenes that owned the parcels are gone, and no other key changed.
  pub set_scene_parcels-eq-scene_set :
      (ord : MapRange) (scene : String) (ps : List String) (s t : S)
      → set_scene_parcels srv ord scene ps s ≡ (ok tt, t)
      → (ps ≢ [])
        × (xs : List String) × (list_of (without_scenes (value_at s) ps scene) ≡ some xs)
        × ((j : String) → value_at t j ≡ scene_set (value_at s) scene ps xs j)
  unfolding set_scene_parcels
  set_scene_parcels-eq-scene_set ord scene [] s t h = cc
  set_scene_parcels-eq-scene_set ord scene (p ∷ ps) s t h =
      let (cids, u, e, k) =
        >>=-eq-ok (old_scenes srv [] (p ∷ ps)) (replace_scenes srv ord scene (p ∷ ps)) s h in
      let (same, keys) = old_scenes_ok [] (p ∷ ps) s u cids e in
      let (xs, found, final) = replace_scenes_ok ord scene (p ∷ ps) (value_at s) cids u t keys k in
      ((λ q. cc), xs, rw same at found, λ j. rw same at (final j))
