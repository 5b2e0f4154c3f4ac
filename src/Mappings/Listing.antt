-- ===== src/Mappings/Listing.antt =====
-- GetScenes on a consistent keyspace: the scene that it names for a parcel owns the parcel.
use content_service.Prelude.{
  ◌≡◌, refl, sym, ap, ◌∙◌, String, Bool, true, List, [], ◌∷◌, ◌++◌, Option, none, some, Map,
  MapRange, map, All, arith, All-append, contains, eq_refl, Bool-cases, inl, inr,
}
use content_service.Prelude.Int.{pos}
use content_service.Go.{Result, ok, err, panicked, pure, lift, on_error}
use content_service.Go.Inversion.{>>=-eq-ok, pure-eq-ok, inspect-eq-ok, on_error-cases}
use content_service.Http.{Reply, json}
use content_service.Parcels.{rect_to_parcels}
use content_service.Redis.{RedisServer, Value, str, hash, set, list, list_of}
use content_service.Redis.Client.{get_scene_parcels, get_scene_cid}
use content_service.Redis.Scenes.{Keyspace}
use content_service.Redis.Ownership.{IsConsistent}
use content_service.Mappings.{
  Scene, GetScenesParams, is_nil_error, scene_cids, parcels_or_nil, scene_entry, scenes_of,
  all_scenes, scenes_reply, scenes_in, scenes_within, get_scenes,
}
use content_service.Mappings.ReadOnly.{scenes_of-Reads, scene_cids_all-Reads}

All_of_contains :
    {P : String → Type 0} (xs : List String)
    → ((x : String) → contains x xs ≡ true → P x)
    → All P xs
All_of_contains [] h = tt
All_of_contains (x ∷ xs) h =
    (h x (rw (eq_refl x) refl), All_of_contains xs (λ y k. h y (ground (arith, k))))

All-map :
    {A B : Type 0} (P : B → Type 0) (f : A → B) (xs : List A)
    → All (λ x. P (f x)) xs
    → All P (map f xs)
All-map P f [] h = tt
All-map P f (x ∷ xs) (p, h) = (p, All-map P f xs h)

-- The scene's root CID is what the parcel's key holds.
abbrev IsOwned : Keyspace → Scene → Type 0
IsOwned d x = d x.parcel_id ≡ some (str x.root_cid)

listed-owned :
    (d : Keyspace) (cid : String) (v : Option Value) (ps : List String)
    → IsConsistent d
    → d cid ≡ v
    → list_of v ≡ some ps
    → All (λ p. d p ≡ some (str cid)) ps
listed-owned d cid none ps k e h = let same : [] ≡ ps = cc in rw (← same) tt
listed-owned d cid (some (list xs)) ps k e h =
    let same : xs ≡ ps = cc in All_of_contains ps (λ p m. k.owned cid p ps (rw (← same) e) m)
listed-owned d cid (some (str x)) ps k e h = cc
listed-owned d cid (some (hash x)) ps k e h = cc
listed-owned d cid (some (set x)) ps k e h = cc

module _ {S : Type 0} (srv : RedisServer S) (order : MapRange) where
  open srv use {value_at}

  parcels_or_nil-owned :
      (cid : String) (s t : S) (ps : List String)
      → IsConsistent (value_at s)
      → parcels_or_nil srv order cid s ≡ (ok ps, t)
      → All (λ p. value_at s p ≡ some (str cid)) ps
  unfolding get_scene_parcels
  parcels_or_nil-owned cid s t ps k h = elim (on_error-cases (srv.lrange_all cid) _ s h) [
    | inl e ↦ listed-owned (value_at s) cid _ ps k refl (srv.lrange_all_ok cid s t ps e)
    | inr (e, q) ↦ elim (Bool-cases (is_nil_error e)) [
      | inl missing ↦ let q' = rw missing at q in rw (← (pure-eq-ok [] ps _ t q').0) tt
      | inr other ↦ let q' = rw other at q in cc
    ]
  ]

  scenes_of-IsOwned :
      (cid : String) (s t : S) (scenes : List Scene)
      → IsConsistent (value_at s)
      → scenes_of srv order cid s ≡ (ok scenes, t)
      → All (IsOwned (value_at s)) scenes
  unfolding scenes_of
  scenes_of-IsOwned cid s t scenes k h =
      let (ps, u, e, h1) = >>=-eq-ok (parcels_or_nil srv order cid) _ s h in
      let (scene, v, _, h2) = >>=-eq-ok (on_error (get_scene_cid srv cid) λ e. pure "") _ u h1 in
      rw (← (pure-eq-ok _ scenes v t h2).0) (
        All-map (IsOwned (value_at s)) (scene_entry srv order cid scene) ps
          (parcels_or_nil-owned cid s u ps k e))

  all_scenes-IsOwned :
      (cids : Map Bool) (s t : S) (scenes : List Scene)
      → IsConsistent (value_at s)
      → all_scenes srv order cids s ≡ (ok scenes, t)
      → All (IsOwned (value_at s)) scenes
  unfolding all_scenes
  all_scenes-IsOwned [] s t scenes k h = rw (← (pure-eq-ok [] scenes s t h).0) tt
  all_scenes-IsOwned (entry ∷ cids) s t scenes k h =
      let (here, u, e, h1) = >>=-eq-ok (scenes_of srv order entry.0) _ s h in
      let (rest, v, e', h2) = >>=-eq-ok (all_scenes srv order cids) _ u h1 in
      let kept : value_at u ≡ value_at s =
        ap (λ x. value_at x.1) (sym e) ∙ (scenes_of-Reads srv order entry.0).at s in
      rw (← (pure-eq-ok (here ++ rest) scenes v t h2).0) (
        All-append (IsOwned (value_at s)) here rest (scenes_of-IsOwned entry.0 s u here k e)
          (rw kept at (all_scenes-IsOwned cids u v rest (rw kept k) e')))

  pub scenes_reply-json :
      (x : Result (List Scene)) (u t : S) (reply : Reply (List Scene)) (scenes : List Scene)
      → scenes_reply srv order x u ≡ (ok reply, t)
      → reply.body ≡ json scenes
      → x ≡ ok scenes
  scenes_reply-json (ok ys) u t reply scenes h b =
      let same = ap (λ (r : Reply (List Scene)). r.body) (pure-eq-ok _ reply u t h).0 in cc
  scenes_reply-json (err e) u t reply scenes h b =
      let same = ap (λ (r : Reply (List Scene)). r.body) (pure-eq-ok _ reply u t h).0 in cc
  scenes_reply-json panicked u t reply scenes h b = cc

  scenes_within-IsOwned :
      (o : Option (List String)) (s t : S) (reply : Reply (List Scene)) (scenes : List Scene)
      → IsConsistent (value_at s)
      → scenes_within srv order o s ≡ (ok reply, t)
      → reply.body ≡ json scenes
      → All (IsOwned (value_at s)) scenes
  unfolding scenes_in
  scenes_within-IsOwned none s t reply scenes k h b =
      let same = ap (λ (r : Reply (List Scene)). r.body) (pure-eq-ok _ reply s t h).0 in cc
  scenes_within-IsOwned (some ps) s t reply scenes k h b =
      let run = scenes_in srv order ps s in
      let e =
        scenes_reply-json run.0 run.1 t reply scenes (inspect-eq-ok (scenes_in srv order ps) _ s h)
          b in
      let (cids, u, e1, h1) =
        >>=-eq-ok (scene_cids srv order [] ps)
          (λ cids. all_scenes srv order (order.range Bool cids)) s {b = scenes} {t = run.1}
          (λ i. (e i, run.1)) in
      let kept : value_at u ≡ value_at s =
        ap (λ x. value_at x.1) (sym e1) ∙ (scene_cids_all-Reads srv order ps).at s in
      rw kept at (all_scenes-IsOwned (order.range Bool cids) u run.1 scenes (rw kept k) h1)

  -- If the keyspace is consistent, GetScenes lists for each parcel the root CID that the parcel's own
  -- key holds, so it never gives one parcel to two scenes.
  pub get_scenes-owned :
      (p : GetScenesParams) (s t : S) (reply : Reply (List Scene)) (scenes : List Scene)
      → IsConsistent (value_at s)
      → get_scenes srv order (some p) s ≡ (ok reply, t)
      → reply.body ≡ json scenes
      → All (λ x. value_at s x.parcel_id ≡ some (str x.root_cid)) scenes
  unfolding get_scenes
  get_scenes-owned p s t reply scenes k h b =
      let (o, u, e, h1) =
        >>=-eq-ok (lift (rect_to_parcels p.x1 p.y1 p.x2 p.y2 (pos 200))) (scenes_within srv order) s
          h in
      let start : s ≡ u = ap (λ x. x.1) e in
      scenes_within-IsOwned o s t reply scenes k (rw start h1) b
