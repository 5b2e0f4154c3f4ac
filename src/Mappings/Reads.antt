-- ===== src/Mappings/Reads.antt =====
-- The reads of GetScenes (internal/handlers/mappings_handler.go) on a typed keyspace: each ends, with
-- what the keyspace holds.
use content_service.Prelude.{
  ◌≡◌, refl, ap, ◌∙◌, String, Bool, true, false, List, [], ◌∷◌, Option, none, some, ◌==◌, ◌&&◌, map,
  MapRange, contains, eq_refl, arith,
}
use mathlib.Core.Option
use content_service.Prelude.Entries.{any}
use content_service.Prelude.Text.{◌+++◌}
use content_service.Go.{pure, ◌>>=◌, on_error}
use content_service.Redis.{RedisServer, str, list, set_of, list_of}
use content_service.Redis.Client.{
  or_empty, root_scene_prefix, processed_set, processed_parcel, get_parcel_cid, get_scene_parcels,
  get_scene_cid,
}
use content_service.Redis.Answering.{
  IsAnswering, Ends, pure-Ends, bind-Ends, on_error-Ends, get-Ends, sis_member-Ends,
  lrange_all-Ends,
}
use content_service.Redis.Keys.{is_parcel_key, root_scene_key-first, processed_key-first}
use content_service.Redis.Scenes.{Keyspace, owner_of}
use content_service.Redis.Types.{
  IsTyped, key_shape, parcel-shape, string_of_shape, set_of_shape, list_of_shape,
}
use content_service.Upload.Names.{NamesCids}
use content_service.Upload.Cids.{KeySyntax}
use content_service.Mappings.{Scene, is_processed, scene_entry, scenes_of}

-- The list of scenes has the parcel under the root CID.
abbrev pub has_scene : String → String → List Scene → Bool
has_scene parcel root = any λ x. (x.parcel_id == parcel) && (x.root_cid == root)

has_scene-map :
    {S : Type 0} (srv : RedisServer S) (order : MapRange) (parcel root scene : String)
    (ps : List String)
    → has_scene parcel root (map (scene_entry srv order root scene) ps) ≡ contains parcel ps
has_scene-map srv order parcel root scene [] = refl
has_scene-map srv order parcel root scene (p ∷ ps) =
    rw (eq_refl root) (ground (arith, has_scene-map srv order parcel root scene ps))

module _ {S : Type 0} (srv : RedisServer S) (up : IsAnswering srv) (order : MapRange)
    {parses : String → Bool} (syntax : KeySyntax parses) (d : Keyspace) (typed : IsTyped parses d)
    (names : NamesCids parses d) where
  open srv use {value_at}

  owner_found :
      (p : String) (x r : Option String)
      → is_parcel_key p ≡ true
      → d p ≡ Option.map str r
      → x ≡ r
      → (or_empty x ≡ owner_of (d p)) × ((or_empty x == "") ≡ false → parses (or_empty x) ≡ true)
  owner_found p x none parcel found same = rw (same, found) (refl, λ h. cc)
  owner_found p x (some c) parcel found same = rw (same, found) (refl, λ _. names p c parcel found)

  pub get_parcel_cid-Ends :
      (p : String)
      → is_parcel_key p ≡ true
      → Ends srv d
          (get_parcel_cid srv p)
          (λ c. (c ≡ owner_of (d p)) × ((c == "") ≡ false → parses c ≡ true))
  unfolding get_parcel_cid
  get_parcel_cid-Ends p parcel =
      let shape = rw (parcel-shape syntax.cids.no_comma p parcel) at (typed.shapes p) in
      let (r, found) = string_of_shape (d p) shape in
      bind-Ends (get-Ends up p r found) (λ x same. pure-Ends (owner_found p x r parcel found same))

  pub is_processed-Ends :
      (p : String) (done : List String)
      → set_of (d processed_set) ≡ some done
      → Ends srv d (is_processed srv order p) (λ b. b ≡ contains p done)
  unfolding processed_parcel
  is_processed-Ends p done found = on_error-Ends _ (sis_member-Ends up processed_set p done found)

  pub processed-set : (done : List String) × (set_of (d processed_set) ≡ some done)
  unfolding key_shape
  processed-set =
      set_of_shape (d processed_set)
        (rw (syntax.no_processed_key, processed_key-first) at (typed.shapes processed_set))

  scene_cid-Ends :
      (cid : String) → Ends srv d (on_error (get_scene_cid srv cid) λ e. pure "") (λ _. Unit {0})
  unfolding get_scene_cid key_shape ◌>>=◌ on_error
  scene_cid-Ends cid =
      let shape =
        rw (syntax.no_root_scene_key cid, root_scene_key-first cid) at
          (typed.shapes (root_scene_prefix +++ cid)) in
      let (r, found) = string_of_shape (d (root_scene_prefix +++ cid)) shape in
      go r (get-Ends up (root_scene_prefix +++ cid) r found)
    where
      go :
          (r : Option String)
          → Ends srv d (srv.get (root_scene_prefix +++ cid)) (λ x. x ≡ r)
          → Ends srv d (on_error (get_scene_cid srv cid) λ e. pure "") (λ _. Unit {0})
      go none h = record {
        runs =
            λ s e. let (x, t, run, e', same) = h.runs s e in ("", t, rw run (rw same refl), e', tt);
      }
      go (some c) h = record {
        runs =
            λ s e. let (x, t, run, e', same) = h.runs s e in (c, t, rw run (rw same refl), e', tt);
      }

  pub scenes_of-Ends :
      (cid : String)
      → parses cid ≡ true
      → Ends srv d (scenes_of srv order cid) (λ scenes.
        (parcel : String) (ps : List String)
        → d cid ≡ some (list ps)
        → contains parcel ps ≡ true
        → has_scene parcel cid scenes ≡ true)
  unfolding scenes_of get_scene_parcels key_shape
  scenes_of-Ends cid parsed =
      let shape = rw parsed at (typed.shapes cid) in
      let (xs, found) = list_of_shape (d cid) shape in
      bind-Ends (on_error-Ends _ (lrange_all-Ends up cid xs found)) (λ ps all.
        bind-Ends (scene_cid-Ends cid) (λ scene _. pure-Ends (λ parcel ys at_cid member.
          let same : xs ≡ ys = let both = ap list_of at_cid in cc in
          has_scene-map srv order parcel cid scene ps ∙ rw (all, same) member)))
