-- ===== src/Mappings/Scenes.antt =====
-- GetScenes (internal/handlers/mappings_handler.go) on a typed keyspace: it answers, and lists the
-- parcels of every scene that it finds.
use content_service.Prelude.{
  ◌≡◌, refl, sym, ap, ◌∙◌, String, Bool, true, false, List, [], ◌∷◌, some, ◌==◌, ◌&&◌, ◌||◌, Map,
  MapRange, contains, has_key, has_key-insert, has_key-perm, insert, eq_refl, eq_iff, Bool-cases,
  inl, inr, arith,
}
use content_service.Prelude.Entries.{any-append}
use content_service.Prelude.Int.{pos}
use content_service.Go.{ok, ◌>>=◌, inspect}
use content_service.Http.{reply_json}
use content_service.Parcels.{rect_to_parcels}
use content_service.Redis.{RedisServer, str, set, list, set_of}
use content_service.Redis.Client.{processed_set}
use content_service.Redis.Answering.{
  IsAnswering, Ends, pure-Ends, bind-Ends, Ends-imp, on_error-Ends,
}
use content_service.Redis.Scenes.{Keyspace, owner_of}
use content_service.Redis.Ownership.{AllParcels, contains-AllParcels}
use content_service.Redis.Types.{IsTyped}
use content_service.Upload.Names.{NamesCids}
use content_service.Upload.Cids.{KeySyntax}
use content_service.Parcels.Keys.{rect_to_parcels-AllParcels}
use content_service.Mappings.{Scene, GetScenesParams, scene_cids, all_scenes, scenes_in, get_scenes}
use content_service.Mappings.Reads.{
  has_scene, get_parcel_cid-Ends, is_processed-Ends, processed-set, scenes_of-Ends,
}

-- The parcel is on the list of the scene that a processed parcel of `pids` names.
pub record IsShown (d : Keyspace) (pids : List String) (parcel root : String) : Type 0 where
  pub seen : String
  pub inside : contains seen pids ≡ true
  pub owner : d seen ≡ some (str root)
  pub done : List String
  pub processed : d processed_set ≡ some (set done)
  pub is_done : contains seen done ≡ true
  pub parcels : List String
  pub at_root : d root ≡ some (list parcels)
  pub listed : contains parcel parcels ≡ true

or_right : (a b : Bool) → b ≡ true → (a || b) ≡ true
or_right a b h = ground arith

module _ {S : Type 0} (srv : RedisServer S) (up : IsAnswering srv) (order : MapRange)
    {parses : String → Bool} (syntax : KeySyntax parses) (d : Keyspace) (typed : IsTyped parses d)
    (names : NamesCids parses d) where
  open srv use {value_at}

  -- The CIDs of the scenes.
  abbrev AreCids : Map Bool → Type 0
  AreCids cids = (c : String) → has_key c cids ≡ true → parses c ≡ true

  full_cid : (c : String) → parses c ≡ true → (c == "") ≡ false
  full_cid c parsed = elim (Bool-cases (c == "")) [
    | inl empty ↦
        let path = ap parses ((eq_iff c "").0 empty) in let unparsed = syntax.no_empty in cc
    | inr full ↦ full
  ]

  -- The first loop of GetScenes: the CIDs of the scenes that the processed parcels name.
  record HasOwners (done : List String) (cids : Map Bool) (pids : List String) (out : Map Bool)
      : Type 0 where
    are_cids : AreCids out
    keeps : (c : String) → has_key c cids ≡ true → has_key c out ≡ true
    owners :
        (p c : String)
        → contains p pids ≡ true
        → d p ≡ some (str c)
        → (c == "") ≡ false
        → contains p done ≡ true
        → has_key c out ≡ true

  insert-AreCids :
      (c : String) (cids : Map Bool) → parses c ≡ true → AreCids cids → AreCids (insert c true cids)
  insert-AreCids c cids parsed are j h = elim (Bool-cases (c == j)) [
    | inl same ↦ rw (← (eq_iff c j).0 same) parsed
    | inr other ↦ are j (let k = has_key-insert c j true cids in ground (arith, h, k, other))
  ]

  -- A round of the loop, where the CID that the parcel names is among those found, if it counts.
  one_more :
      (done : List String) (cids : Map Bool) (p : String) (pids : List String) (out : Map Bool)
      → ((c : String)
          → d p ≡ some (str c)
          → (c == "") ≡ false
          → contains p done ≡ true
          → has_key c cids ≡ true)
      → HasOwners done cids pids out
      → HasOwners done cids (p ∷ pids) out
  one_more done cids p pids out here h = record {
    are_cids = h.are_cids;
    keeps = h.keeps;
    owners = λ q c member owner named is_done. elim (Bool-cases (p == q)) [
      | inl same ↦
          let path = (eq_iff p q).0 same in
          h.keeps c (here c (rw path owner) named (rw path is_done))
      | inr other ↦ h.owners q c (ground (arith, member, other)) owner named is_done
    ];
  }

  from_inserted :
      (done : List String) (cid : String) (cids : Map Bool) (pids : List String) (out : Map Bool)
      → HasOwners done (insert cid true cids) pids out
      → HasOwners done cids pids out
  from_inserted done cid cids pids out h = record {
    are_cids = h.are_cids;
    keeps = λ c k. h.keeps c (has_key-insert cid c true cids ∙ ground (arith, k));
    owners = h.owners;
  }

  scene_cids-Ends :
      (done : List String) (cids : Map Bool) (pids : List String)
      → set_of (d processed_set) ≡ some done
      → AllParcels pids
      → AreCids cids
      → Ends srv d (scene_cids srv order cids pids) (HasOwners done cids pids)
  unfolding scene_cids
  scene_cids-Ends done cids [] found _ are =
      pure-Ends (record { are_cids = are; keeps = λ c h. h; owners = λ p c h. cc })
  scene_cids-Ends done cids (p ∷ pids) found (parcel, parcels) are =
      bind-Ends (on_error-Ends _ (get_parcel_cid-Ends srv up order syntax d typed names p parcel))
        (λ cid (owner, named).
          let is_owner : (c : String) → d p ≡ some (str c) → cid ≡ c =
            λ c e. owner ∙ ap owner_of e in
          elim (Bool-cases (cid == "")) [
            | inl missing ↦ rw missing (
                Ends-imp (scene_cids-Ends done cids pids found parcels are) (λ out h.
                  one_more done cids p pids out
                    (λ c e full _. let same = rw (is_owner c e) at missing in cc) h))
            | inr present ↦ rw present (
                bind-Ends (is_processed-Ends srv up order syntax d typed names p done found)
                  (λ valid is_done. elim (Bool-cases valid) [
                    | inl counts ↦ rw counts (
                        Ends-imp
                          (scene_cids-Ends done (insert cid true cids) pids found parcels
                            (insert-AreCids cid cids (named present) are))
                          (λ out h. from_inserted done cid cids (p ∷ pids) out (
                            one_more done (insert cid true cids) p pids out
                              (λ c e _ _.
                                has_key-insert cid c true cids
                                ∙ rw (is_owner c e) (rw (eq_refl c) refl))
                              h)))
                    | inr unseen ↦ rw unseen (
                        Ends-imp (scene_cids-Ends done cids pids found parcels are)
                          (λ out h. one_more done cids p pids out (λ c e _ counted. cc) h))
                  ]))
          ])

  all_scenes-Ends :
      (cids : Map Bool)
      → AreCids cids
      → Ends srv d (all_scenes srv order cids) (λ scenes.
        (root parcel : String) (ps : List String)
        → has_key root cids ≡ true
        → d root ≡ some (list ps)
        → contains parcel ps ≡ true
        → has_scene parcel root scenes ≡ true)
  unfolding all_scenes
  all_scenes-Ends [] are = pure-Ends (λ root parcel ps h. cc)
  all_scenes-Ends ((c, v) ∷ cids) are =
      bind-Ends (scenes_of-Ends srv up order syntax d typed names c (are c (rw (eq_refl c) refl)))
        (λ here shown.
          bind-Ends (all_scenes-Ends cids (λ j h. are j (ground (arith, h)))) (λ rest later.
            pure-Ends (λ root parcel ps member at_root listed.
              any-append (λ x. (x.parcel_id == parcel) && (x.root_cid == root)) here rest
              ∙ elim (Bool-cases (c == root)) [
                | inl same ↦
                    let path = (eq_iff c root).0 same in
                    let found : has_scene parcel root here ≡ true =
                      rw path at (shown parcel ps (rw path at_root) listed) in
                    rw found refl
                | inr other ↦
                    or_right _ _
                      (later root parcel ps (ground (arith, member, other)) at_root listed)
              ])))

  scenes_in-Ends :
      (pids : List String)
      → AllParcels pids
      → Ends srv d (scenes_in srv order pids) (λ scenes.
        (parcel root : String) → IsShown d pids parcel root → has_scene parcel root scenes ≡ true)
  unfolding scenes_in
  scenes_in-Ends pids parcels =
      let (done, found) = processed-set srv up order syntax d typed names in
      bind-Ends (scene_cids-Ends done [] pids found parcels (λ c h. cc)) (λ cids h.
        Ends-imp
          (all_scenes-Ends (order.range Bool cids)
            (λ c k. h.are_cids c (sym (has_key-perm c (order.range_perm Bool cids)) ∙ k)))
          (λ scenes shown parcel root i.
            let same : done ≡ i.done = let e = ap set_of i.processed in cc in
            let owned = contains-AllParcels i.seen pids parcels i.inside in
            shown root parcel i.parcels
              (has_key-perm root (order.range_perm Bool cids)
                ∙ h.owners i.seen root i.inside i.owner
                    (full_cid root (names i.seen root owned i.owner)) (rw same i.is_done))
              i.at_root i.listed))

module _ {S : Type 0} (srv : RedisServer S) (order : MapRange) {parses : String → Bool}
    (syntax : KeySyntax parses) where
  open srv use {value_at}

  -- If no CID is empty, has a comma or is a prefixed or fixed key, the keyspace is typed, the parcels'
  -- keys name CIDs, the server answers its reads and the rectangle is not too large, then GetScenes
  -- answers 200 with a list of scenes, and for every scene that a processed parcel of the rectangle
  -- names it lists every parcel of the scene under its root CID.
  pub get_scenes-lists :
      (up : IsAnswering srv) (p : GetScenesParams) (pids : List String) (s : S)
      → IsTyped parses (value_at s)
      → NamesCids parses (value_at s)
      → rect_to_parcels p.x1 p.y1 p.x2 p.y2 (pos 200) ≡ ok (some pids)
      → (scenes : List Scene) × (t : S) × (get_scenes srv order (some p) s
          ≡ (ok (reply_json scenes), t))
        × ((parcel root : String)
            → IsShown (value_at s) pids parcel root
            → has_scene parcel root scenes ≡ true)
  unfolding get_scenes ◌>>=◌ inspect
  get_scenes-lists up p pids s typed names rect =
      let parcels = rect_to_parcels-AllParcels p.x1 p.y1 p.x2 p.y2 (pos 200) pids rect in
      let (scenes, t, run, _, shown) =
        (scenes_in-Ends srv up order syntax (value_at s) typed names pids parcels).runs s refl in
      (scenes, t, rw rect (rw run refl), shown)
