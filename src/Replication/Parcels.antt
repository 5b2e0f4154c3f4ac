-- ===== src/Replication/Parcels.antt =====
-- The loops of the replication command: each parcel is copied, and later ones leave it so.
use content_service.Prelude.{
  ◌≡◌, refl, sym, ap, ◌∙◌, String, true, false, List, [], ◌∷◌, some, none, MapRange, ◌==◌,
  if◌then◌else◌, Map, All, All-map_imp, eq_refl, arith,
}
use content_service.Prelude.Entries.{any}
use content_service.Go.{ok, for_each}
use content_service.Go.Inversion.{>>=-eq-ok}
use content_service.Go.Loops.{for_each_keeps, for_each_all}
use content_service.World.{World, on_disk, on_redis, on_disk-eq-ok, on_redis-eq-ok}
use content_service.Redis.{RedisServer, str, hash, insert_all}
use content_service.Redis.Keys.{
  is_parcel_key, content_key-plain, metadata_key-plain, different_keys, content_key-first,
  metadata_key-first, processed_key-first, starts_number,
}
use content_service.Redis.Scenes.{Keyspace}
use content_service.Redis.Ownership.{plain-ne-parcel}
use content_service.Storage.{Storage}
use content_service.Upload.{Metadata, metadata_fields}
use content_service.Http.{Reply, json}
use content_service.Redis.Client.{processed_set}
use content_service.Mappings.{ParcelContent, Scene, GetScenesParams, get_scenes}
use content_service.Mappings.Unprocessed.{get_scenes-none}
use content_service.Replication.{
  Source, Arguments, fetch_metadata, copy_element, copy_parcel, fetch_contents, replicate,
}
use content_service.Replication.Copied.{
  content_key, metadata_key, HasField, HasField-other, IsNamed, IsNamed-metadata, IsReplicated,
  parcel-ne-plain, stored_root, trivial_elements, copy_element-writes, copy_element-HasField,
  copy_element-keeps_field, copy_element-IsNamed,
}

-- Each parcel comes once, under an id of the shape of one.
abbrev pub HasParcels : List ParcelContent → Type 0
HasParcels [] = Unit
HasParcels (pc ∷ pcs) =
    (is_parcel_key pc.parcel_id ≡ true)
    × (any (λ other. other.parcel_id == pc.parcel_id) pcs ≡ false)
    × HasParcels pcs

abbrev IsOther : String → ParcelContent → Type 0
IsOther pid other = ((other.parcel_id == pid) ≡ false) × (is_parcel_key other.parcel_id ≡ true)

others :
    (pid : String) (pcs : List ParcelContent)
    → HasParcels pcs
    → any (λ other. other.parcel_id == pid) pcs ≡ false
    → All (IsOther pid) pcs
others pid [] _ h = tt
others pid (pc ∷ pcs) (parcel, _, rest) h =
    ((ground (arith, h), parcel), others pid pcs rest (ground (arith, h)))

module _ {R D : Type 0} (srv : RedisServer R) (sto : Storage D) (source : Source D) where
  open srv use {value_at}

  abbrev keys : World R D → Keyspace
  keys w = value_at w.redis

  -- The state of the keyspace before the files of a parcel are copied.
  record IsOpened (pc : ParcelContent) (root url : String) (w u w' : World R D) : Type 0 where
    pub metadata : Metadata
    pub is_root : metadata.root_cid ≡ root
    pub older : Map String
    pub keyspace :
        (j : String)
        → keys u j ≡ (
            if metadata_key metadata.root_cid == j
            then some (hash (insert_all (metadata_fields metadata) older))
            else if pc.parcel_id == j
            then some (str metadata.root_cid)
            else keys w j)
    pub files : for_each pc.contents (copy_element srv sto source url root) u ≡ (ok tt, w')

  copy_parcel-IsOpened :
      (url : String) (pc : ParcelContent) (w w' : World R D)
      → copy_parcel srv sto source url pc w ≡ (ok tt, w')
      → (root : String) × (u : World R D) × IsOpened pc root url w u w'
  unfolding copy_parcel
  copy_parcel-IsOpened url pc w w' run =
      let fetch = fetch_metadata srv sto source url pc.parcel_id in
      let (m, w1, e1, k1) = >>=-eq-ok (on_disk fetch) _ w run in
      let (_, same1) = on_disk-eq-ok fetch w w1 m e1 in
      let (_, w2, e2, k2) = >>=-eq-ok (on_redis (srv.set pc.parcel_id m.root_cid)) _ w1 k1 in
      let (set_run, _) = on_redis-eq-ok (srv.set pc.parcel_id m.root_cid) w1 w2 tt e2 in
      let first = srv.set_ok pc.parcel_id m.root_cid w1.redis w2.redis set_run in
      let store = srv.hmset (metadata_key m.root_cid) (metadata_fields m) in
      let (_, w3, e3, k3) = >>=-eq-ok (on_redis store) _ w2 k2 in
      let (store_run, _) = on_redis-eq-ok store w2 w3 tt e3 in
      let (older, _, second) =
        srv.hmset_ok (metadata_key m.root_cid) (metadata_fields m) w2.redis w3.redis store_run in
      (
        m.root_cid,
        w3,
        record {
          metadata = m;
          is_root = refl;
          older = older;
          keyspace = λ j.
              second j
              ∙ ap
                  (λ x.
                    if metadata_key m.root_cid == j
                    then some (hash (insert_all (metadata_fields m) older))
                    else x)
                  (first j
                    ∙ ap (λ x. if pc.parcel_id == j then some (str m.root_cid) else value_at x j)
                        same1);
          files = k3;
        },
      )

  copy_parcel-IsReplicated :
      (url : String) (pc : ParcelContent) (w w' : World R D)
      → is_parcel_key pc.parcel_id ≡ true
      → copy_parcel srv sto source url pc w ≡ (ok tt, w')
      → IsReplicated (keys w') pc
  copy_parcel-IsReplicated url pc w w' parcel run =
      let (root, u, o) = copy_parcel-IsOpened url pc w w' run in
      let pid = pc.parcel_id in
      let start : IsNamed (keys u) pid root = rw (← o.is_root) (record {
        owner =
            o.keyspace pid
            ∙ rw
                (plain-ne-parcel _ pid (metadata_key-plain o.metadata.root_cid) parcel, eq_refl pid)
                refl;
        fields = insert_all (metadata_fields o.metadata) o.older;
        metadata =
            o.keyspace (metadata_key o.metadata.root_cid)
            ∙ rw (eq_refl (metadata_key o.metadata.root_cid)) refl;
        root_cid = stored_root o.metadata o.older;
      }) in
      record {
        root = root;
        named =
            for_each_keeps (copy_element srv sto source url root) (λ _. Unit {0})
              (λ x. IsNamed (keys x) pid root)
              (λ el x y _ q r.
                copy_element-IsNamed srv sto source url root pid root el x y parcel q r)
              pc.contents u (trivial_elements pc.contents) start o.files;
        files =
            for_each_all (copy_element srv sto source url root) (λ _. Unit {0})
              (λ el x. HasField (keys x) (content_key root) el.file)
              (λ el x y _ r. copy_element-HasField srv sto source url root el x y r)
              (λ el other x y _ q r.
                copy_element-keeps_field srv sto source url root (content_key root) el.file other x
                  y q r)
              pc.contents u (trivial_elements pc.contents) o.files;
      }

  -- The keys of one parcel, while another one is opened.
  opened_keeps :
      (url pid owner root : String) (other : ParcelContent) (w u w' : World R D)
      → is_parcel_key pid ≡ true
      → IsOther pid other
      → IsOpened other root url w u w'
      → IsNamed (keys w) pid owner
      → IsNamed (keys u) pid owner
        × ((field : String)
            → HasField (keys w) (content_key owner) field
            → HasField (keys u) (content_key owner) field)
  opened_keeps url pid owner root other w u w' parcel (differ, shape) o n =
      let middle : Keyspace =
        λ j. if other.parcel_id == j then some (str o.metadata.root_cid) else keys w j in
      let there : IsNamed middle pid owner = record {
        owner = rw differ n.owner;
        fields = n.fields;
        metadata =
            rw
              (parcel-ne-plain other.parcel_id (metadata_key owner) shape
                (metadata_key-plain owner))
              n.metadata;
        root_cid = n.root_cid;
      } in
      (
        IsNamed-metadata middle (keys u) pid owner o.metadata o.older parcel o.keyspace there,
        λ field has.
            HasField-other (keys w) (keys u) (content_key owner) field
              (o.keyspace (content_key owner)
                ∙ rw
                    (
                      different_keys (metadata_key o.metadata.root_cid) (content_key owner) 109 99
                          (metadata_key-first o.metadata.root_cid) (content_key-first owner)
                          (omega arith),
                      parcel-ne-plain other.parcel_id (content_key owner) shape
                          (content_key-plain owner),
                    )
                    refl)
              has,
      )

  copy_parcel-keeps :
      (url : String) (pc other : ParcelContent) (w w' : World R D)
      → is_parcel_key pc.parcel_id ≡ true
      → IsOther pc.parcel_id other
      → IsReplicated (keys w) pc
      → copy_parcel srv sto source url other w ≡ (ok tt, w')
      → IsReplicated (keys w') pc
  copy_parcel-keeps url pc other w w' parcel is_other rep run =
      let (root, u, o) = copy_parcel-IsOpened url other w w' run in
      let (named, kept) =
        opened_keeps url pc.parcel_id rep.root root other w u w' parcel is_other o rep.named in
      record {
        root = rep.root;
        named =
            for_each_keeps (copy_element srv sto source url root) (λ _. Unit {0})
              (λ x. IsNamed (keys x) pc.parcel_id rep.root)
              (λ el x y _ q r.
                copy_element-IsNamed srv sto source url root pc.parcel_id rep.root el x y parcel q
                  r)
              other.contents u (trivial_elements other.contents) named o.files;
        files =
            All-map_imp pc.contents
              (λ e has.
                for_each_keeps (copy_element srv sto source url root) (λ _. Unit {0})
                  (λ x. HasField (keys x) (content_key rep.root) e.file)
                  (λ el x y _ q r.
                    copy_element-keeps_field srv sto source url root (content_key rep.root) e.file
                      el x y q r)
                  other.contents u (trivial_elements other.contents) (kept e.file has) o.files)
              rep.files;
      }

  copy_parcels-IsReplicated :
      (url : String) (pcs : List ParcelContent) (w w' : World R D)
      → HasParcels pcs
      → for_each pcs (copy_parcel srv sto source url) w ≡ (ok tt, w')
      → All (IsReplicated (keys w')) pcs
  unfolding for_each
  copy_parcels-IsReplicated url [] w w' _ run = tt
  copy_parcels-IsReplicated url (pc ∷ pcs) w w' (parcel, fresh, rest) run =
      let (_, u, e, k) =
        >>=-eq-ok (copy_parcel srv sto source url pc)
          (λ _. for_each pcs (copy_parcel srv sto source url)) w run in
      (
        for_each_keeps (copy_parcel srv sto source url) (IsOther pc.parcel_id)
            (λ x. IsReplicated (keys x) pc)
            (λ other x y i q r. copy_parcel-keeps url pc other x y parcel i q r) pcs u
            (others pc.parcel_id pcs rest fresh) (copy_parcel-IsReplicated url pc w u parcel e) k,
        copy_parcels-IsReplicated url pcs u w' rest k,
      )

  -- The list that the command got, where it ended well.
  replicate-copies :
      (a : Arguments) (w w' : World R D) (parcels : List ParcelContent) (d : D)
      → fetch_contents srv sto source a w.disk ≡ (ok parcels, d)
      → replicate srv sto source a w ≡ (ok tt, w')
      → (u : World R D) × (u.redis ≡ w.redis)
        × (for_each parcels (copy_parcel srv sto source a.url) u ≡ (ok tt, w'))
  unfolding replicate
  replicate-copies a w w' parcels d got run =
      let (parcels', u, e, k) = >>=-eq-ok (on_disk (fetch_contents srv sto source a)) _ w run in
      let (fetched, kept) = on_disk-eq-ok (fetch_contents srv sto source a) w u parcels' e in
      let same : parcels' ≡ parcels = let both = sym fetched ∙ got in cc in (u, kept, rw same at k)

  -- When the replication command ends without an error and the other server listed parcels with the
  -- ids of parcels, each once, then each of them is in Redis: its key names a root CID, the metadata of which
  -- has that root CID, and the content of which has every file of the parcel.
  pub replicate-IsReplicated :
      (a : Arguments) (w w' : World R D) (parcels : List ParcelContent) (d : D)
      → fetch_contents srv sto source a w.disk ≡ (ok parcels, d)
      → HasParcels parcels
      → replicate srv sto source a w ≡ (ok tt, w')
      → All (IsReplicated (value_at w'.redis)) parcels
  replicate-IsReplicated a w w' parcels d got shapes run =
      let (u, _, k) = replicate-copies a w w' parcels d got run in
      copy_parcels-IsReplicated a.url parcels u w' shapes k

  copy_parcel-processed :
      (url : String) (pc : ParcelContent) (w w' : World R D)
      → is_parcel_key pc.parcel_id ≡ true
      → copy_parcel srv sto source url pc w ≡ (ok tt, w')
      → keys w' processed_set ≡ keys w processed_set
  unfolding is_parcel_key starts_number
  copy_parcel-processed url pc w w' parcel run =
      let (root, u, o) = copy_parcel-IsOpened url pc w w' run in
      let before : keys u processed_set ≡ keys w processed_set =
        o.keyspace processed_set
        ∙ rw
            (
              different_keys (metadata_key o.metadata.root_cid) processed_set 109 112
                  (metadata_key-first o.metadata.root_cid) processed_key-first (omega arith),
              parcel-ne-plain pc.parcel_id processed_set parcel refl,
            )
            refl in
      for_each_keeps (copy_element srv sto source url root) (λ _. Unit {0})
        (λ x. keys x processed_set ≡ keys w processed_set)
        (λ el x y _ q r.
          let (_, _, write) = copy_element-writes srv sto source url root el x y r in
          write processed_set
          ∙ rw
              (different_keys (content_key root) processed_set 99 112 (content_key-first root)
                processed_key-first (omega arith))
              q)
        pc.contents u (trivial_elements pc.contents) before o.files

  parcel_ids :
      (pcs : List ParcelContent)
      → HasParcels pcs
      → All (λ pc. is_parcel_key pc.parcel_id ≡ true) pcs
  parcel_ids [] h = tt
  parcel_ids (pc ∷ pcs) (parcel, _, rest) = (parcel, parcel_ids pcs rest)

  -- After a replication that ends without an error, of parcels with the ids of parcels, each once, into a keyspace
  -- without processed parcels, GetScenes lists no scene for any rectangle, although the parcels
  -- were copied.
  pub replicate-lists_no_scenes :
      (order : MapRange) (a : Arguments) (w w' : World R D) (parcels : List ParcelContent) (d : D)
      (p : GetScenesParams) (t : R) (reply : Reply (List Scene)) (scenes : List Scene)
      → fetch_contents srv sto source a w.disk ≡ (ok parcels, d)
      → HasParcels parcels
      → value_at w.redis processed_set ≡ none
      → replicate srv sto source a w ≡ (ok tt, w')
      → get_scenes srv order (some p) w'.redis ≡ (ok reply, t)
      → reply.body ≡ json scenes
      → scenes ≡ []
  replicate-lists_no_scenes order a w w' parcels d p t reply scenes got shapes empty run asked
        body =
      let (u, kept, k) = replicate-copies a w w' parcels d got run in
      let after : keys w' processed_set ≡ none =
        for_each_keeps (copy_parcel srv sto source a.url) (λ pc. is_parcel_key pc.parcel_id ≡ true)
          (λ x. keys x processed_set ≡ none)
          (λ pc x y i q r. copy_parcel-processed a.url pc x y i r ∙ q) parcels u
          (parcel_ids parcels shapes) (ap (λ x. value_at x processed_set) kept ∙ empty) k in
      get_scenes-none srv order p w'.redis t reply scenes after asked body
