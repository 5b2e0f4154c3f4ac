-- ===== src/Mappings/Unprocessed.antt =====
-- GetScenes (internal/handlers/mappings_handler.go) on a keyspace without processed parcels.
use content_service.Prelude.{
  ◌≡◌, refl, sym, ap, ◌∙◌, String, Bool, false, List, [], ◌∷◌, Option, none, some, Map, MapRange,
  Bool-cases, inl, inr, ◌==◌, has_key, has_key-perm, eq_refl,
}
use content_service.Prelude.Int.{pos}
use content_service.Go.{ok, pure, lift, on_error}
use content_service.Go.Inversion.{>>=-eq-ok, pure-eq-ok, inspect-eq-ok, on_error-cases}
use content_service.Http.{Reply, json}
use content_service.Parcels.{rect_to_parcels}
use content_service.Redis.{RedisServer, set_of}
use content_service.Redis.Client.{processed_set, processed_parcel, get_parcel_cid}
use content_service.Mappings.{
  Scene, GetScenesParams, is_processed, scene_cids, all_scenes, scenes_in, scenes_within,
  get_scenes,
}
use content_service.Mappings.ReadOnly.{parcel_cid_or_empty-Reads, is_processed-Reads}
use content_service.Mappings.Listing.{scenes_reply-json}

no_keys : (m : Map Bool) → ((k : String) → has_key k m ≡ false) → m ≡ []
no_keys [] h = refl
no_keys ((k, v) ∷ m) h = let here = rw (eq_refl k) at (h k) in cc

module _ {S : Type 0} (srv : RedisServer S) (order : MapRange) where
  open srv use {value_at}

  is_processed-none :
      (p : String) (s t : S) (b : Bool)
      → value_at s processed_set ≡ none
      → is_processed srv order p s ≡ (ok b, t)
      → b ≡ false
  unfolding processed_parcel
  is_processed-none p s t b empty h = elim (on_error-cases (srv.sis_member processed_set p) _ s h) [
    | inl found ↦
        let (xs, at_key, member) = srv.sis_member_ok processed_set p s t b found in
        let at_none : set_of none ≡ some xs = rw empty at at_key in
        let nothing : [] ≡ xs = cc in member ∙ rw (← nothing) refl
    | inr (e, q) ↦ sym (pure-eq-ok false b _ t q).0
  ]

  scene_cids-none :
      (cids : Map Bool) (ps : List String) (s t : S) (out : Map Bool)
      → value_at s processed_set ≡ none
      → scene_cids srv order cids ps s ≡ (ok out, t)
      → out ≡ cids
  unfolding scene_cids
  scene_cids-none cids [] s t out empty h = sym (pure-eq-ok cids out s t h).0
  scene_cids-none cids (p ∷ ps) s t out empty h =
      let (cid, u, e, k) = >>=-eq-ok (on_error (get_parcel_cid srv p) λ e. pure "") _ s h in
      let kept : value_at u ≡ value_at s =
        ap (λ x. value_at x.1) (sym e) ∙ (parcel_cid_or_empty-Reads srv order p).at s in
      let empty' : value_at u processed_set ≡ none = rw kept empty in
      elim (Bool-cases (cid == "")) [
        | inl missing ↦ scene_cids-none cids ps u t out empty' (rw missing at k)
        | inr present ↦
            let (valid, v, e', k') = >>=-eq-ok (is_processed srv order p) _ u (rw present at k) in
            let kept' : value_at v ≡ value_at u =
              ap (λ x. value_at x.1) (sym e') ∙ (is_processed-Reads srv order p).at u in
            let not_valid = is_processed-none p u v valid empty' e' in
            scene_cids-none cids ps v t out (rw kept' empty') (rw not_valid at k')
      ]

  scenes_within-none :
      (o : Option (List String)) (s t : S) (reply : Reply (List Scene)) (scenes : List Scene)
      → value_at s processed_set ≡ none
      → scenes_within srv order o s ≡ (ok reply, t)
      → reply.body ≡ json scenes
      → scenes ≡ []
  unfolding scenes_in all_scenes
  scenes_within-none none s t reply scenes empty h b =
      let same = ap (λ (r : Reply (List Scene)). r.body) (pure-eq-ok _ reply s t h).0 in cc
  scenes_within-none (some ps) s t reply scenes empty h b =
      let run = scenes_in srv order ps s in
      let e =
        scenes_reply-json srv order run.0 run.1 t reply scenes
          (inspect-eq-ok (scenes_in srv order ps) _ s h) b in
      let (cids, u, e1, h1) =
        >>=-eq-ok (scene_cids srv order [] ps)
          (λ cids. all_scenes srv order (order.range Bool cids)) s {b = scenes} {t = run.1}
          (λ i. (e i, run.1)) in
      let none_found = scene_cids-none [] ps s u cids empty e1 in
      let none_visited : order.range Bool cids ≡ [] =
        no_keys (order.range Bool cids)
          (λ k. has_key-perm k (order.range_perm Bool cids) ∙ ap (has_key k) none_found) in
      let h2 = rw none_visited at h1 in sym (pure-eq-ok [] scenes u run.1 h2).0

  -- If no parcel has been processed, GetScenes lists no scene for any rectangle.
  pub get_scenes-none :
      (p : GetScenesParams) (s t : S) (reply : Reply (List Scene)) (scenes : List Scene)
      → value_at s processed_set ≡ none
      → get_scenes srv order (some p) s ≡ (ok reply, t)
      → reply.body ≡ json scenes
      → scenes ≡ []
  unfolding get_scenes
  get_scenes-none p s t reply scenes empty h b =
      let (o, u, e, h1) =
        >>=-eq-ok (lift (rect_to_parcels p.x1 p.y1 p.x2 p.y2 (pos 200))) (scenes_within srv order) s
          h in
      let start : s ≡ u = ap (λ x. x.1) e in
      scenes_within-none o u t reply scenes (rw (← start) empty) h1 b
