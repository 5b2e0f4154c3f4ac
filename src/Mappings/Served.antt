-- ===== src/Mappings/Served.antt =====
-- GetParcelInformation (internal/handlers/mappings_handler.go) after an upload: it answers, with the
-- scene that was uploaded.
use content_service.Prelude.{
  ◌≡◌, ◌≢◌, refl, sym, ap, ◌∙◌, String, Bool, true, List, [], ◌∷◌, some, ◌==◌, ◌&&◌, map, Map,
  MapRange, contains, eq_refl, Bool-cases, inl, inr, arith,
}
use content_service.Prelude.Maps.{lookup}
use content_service.Prelude.Text.{◌+++◌}
use content_service.Prelude.Entries.{any, any-perm, HasUniqueKeys}
use content_service.Go.{ok, ◌>>=◌, on_error}
use content_service.World.{World}
use content_service.Redis.{RedisServer, str, hash, hash_of, insert_all}
use content_service.Redis.Answering.{IsAnswering}
use content_service.Redis.Client.{
  Field, text, metadata_key_prefix, content_key_prefix, typed_fields,
  get_parcel_information_from_collection, get_parcel_metadata, get_parcel_content,
}
use content_service.Redis.Scenes.{Keyspace}
use content_service.Upload.{UploadRequest, FileMetadata, metadata_fields}
use content_service.Upload.Paths.{names_file}
use content_service.Upload.Recorded.{IsListed, content_key}
use content_service.Upload.Cids.{GivesCidsV0, is_cid_v0}
use content_service.Upload.Names.{NamesCids, process_upload-IsStored, stored_parcel}
use content_service.Upload.Service.{UploadService, process_upload}
use content_service.Mappings.{
  ContentElement, ParcelContent, content_element, text_or_panic, string_field,
  get_parcel_information,
}
use content_service.Mappings.Metadata.{HasInts, reply-typed}

-- The file is among the elements of the reply.
abbrev pub has_element : String → String → List ContentElement → Bool
has_element name cid = any λ e. (e.file == name) && (e.cid == cid)

has_element-map :
    (name cid : String) (m : Map String)
    → has_element name cid (map content_element m)
      ≡ any (λ (e : String × String). (e.0 == name) && (e.1 == cid)) m
has_element-map name cid [] = refl
has_element-map name cid (e ∷ m) = ground (arith, has_element-map name cid m)

lookup-entry :
    (name cid : String) (m : Map String)
    → lookup name m ≡ some cid
    → any (λ (e : String × String). (e.0 == name) && (e.1 == cid)) m ≡ true
unfolding lookup
lookup-entry name cid [] h = cc
lookup-entry name cid ((k, v) ∷ m) h = elim (Bool-cases (k == name)) [
  | inl same ↦
      let h' = rw same at h in let value : v ≡ cid = cc in rw (same, value, eq_refl cid) refl
  | inr other ↦ rw other (lookup-entry name cid m (rw other at h))
]

first_named :
    (manifest : List FileMetadata)
    → manifest ≢ []
    → (c : String) × (name : String) × (names_file manifest c name ≡ true)
first_named [] full = absurd (full refl)
first_named (f ∷ files) full = (f.cid, f.name, rw (eq_refl f.cid, eq_refl f.name) refl)

module _ {S : Type 0} (srv : RedisServer S) (up : IsAnswering srv) (order : MapRange) where
  open srv use {value_at, get, hget_all, get_reads, hget_all_reads, hget_all_ok}

  -- A read of a parcel's collection: the hash of its root CID.
  pub collection-answers :
      (p root prefix : String) (g : Map String) (s : S)
      → value_at s p ≡ some (str root)
      → value_at s (prefix +++ root) ≡ some (hash g)
      → (h : Map String) × (t : S) × (get_parcel_information_from_collection srv p prefix s
          ≡ (ok (some h), t))
        × (value_at t ≡ value_at s)
        × ((f : String) → lookup f h ≡ lookup f g)
        × HasUniqueKeys h
  unfolding get_parcel_information_from_collection ◌>>=◌
  collection-answers p root prefix g s owner found =
      let (s1, e1) = up.get_answers p s (some root) owner in
      let kept1 : value_at s1 ≡ value_at s = ap (λ x. value_at x.1) (sym e1) ∙ get_reads p s in
      let there : value_at s1 (prefix +++ root) ≡ some (hash g) = rw kept1 found in
      let (h, s2, e2) = up.hget_all_answers (prefix +++ root) s1 g (ap hash_of there) in
      let kept2 = ap (λ x. value_at x.1) (sym e2) ∙ hget_all_reads (prefix +++ root) s1 in
      let (g', at_key, same, unique) = hget_all_ok (prefix +++ root) s1 s2 h e2 in
      let value : g' ≡ g = let both = sym at_key ∙ ap hash_of there in cc in
      (h, s2, rw e1 (rw e2 refl), kept2 ∙ kept1, λ f. same f ∙ ap (lookup f) value, unique)

  string_field-found :
      (key v : String) (m : Map Field) → lookup key m ≡ some (text v) → string_field key m ≡ ok v
  string_field-found key v m h = ap text_or_panic h

  -- GetParcelInformation where the parcel's root CID has content and metadata.
  information-answers :
      (p root publisher : String) (content metadata : Map String) (s : S)
      → value_at s p ≡ some (str root)
      → value_at s (content_key_prefix +++ root) ≡ some (hash content)
      → value_at s (metadata_key_prefix +++ root) ≡ some (hash metadata)
      → ((reply : Map String)
          → HasUniqueKeys reply
          → ((f : String) → lookup f reply ≡ lookup f metadata)
          → (fields : Map Field) × (typed_fields reply ≡ ok fields)
            × (lookup "root_cid" fields ≡ some (text root))
            × (lookup "pubkey" fields ≡ some (text publisher)))
      → (h : Map String) × (t : S) × (get_parcel_information srv order p s ≡ (
        ok (
            some (record {
              parcel_id = p;
              contents = map content_element (order.range String h);
              root_cid = root;
              publisher = publisher;
            })),
        t,
      ))
        × ((f : String) → lookup f h ≡ lookup f content)
  unfolding get_parcel_information get_parcel_content get_parcel_metadata ◌>>=◌ on_error
  information-answers p root publisher content metadata s owner contents described typed =
      let (h, s1, e1, kept, same, _) =
        collection-answers p root content_key_prefix content s owner contents in
      let (m, s2, e2, _, same', unique) =
        collection-answers p root metadata_key_prefix metadata s1
          (ap (λ (d : Keyspace). d p) kept ∙ owner)
          (ap (λ (d : Keyspace). d (metadata_key_prefix +++ root)) kept ∙ described) in
      let (fields, e3, root_cid, pubkey) = typed m unique same' in
      (
        h,
        s2,
        rw e1 (
            rw e2 (
              rw e3 (
                rw
                  (
                    string_field-found "root_cid" root fields root_cid,
                    string_field-found "pubkey" publisher fields pubkey,
                  )
                  refl))),
        same,
      )

module _ {R D : Type 0} (us : UploadService R D) (v0 : GivesCidsV0 us.ipfs_node) where
  open us use {redis, order}
  open redis use {value_at}

  -- The content that the endpoint lists has each file of the manifest.
  listed-has_element :
      (r : UploadRequest) (e : Keyspace) (content h : Map String) (name : String)
      → e (content_key r.metadata.root_cid) ≡ some (hash content)
      → ((f : String) → lookup f h ≡ lookup f content)
      → IsListed r.manifest e r.metadata.root_cid name
      → (cid : String) × (names_file r.manifest cid name ≡ true)
        × (has_element name cid (map content_element (order.range String h)) ≡ true)
  listed-has_element r e content h name at_key same l =
      let value : l.contents ≡ content = let both = sym l.at_key ∙ at_key in cc in
      let found : lookup name h ≡ some l.cid = same name ∙ rw (← value) l.found in
      (
        l.cid,
        l.named,
        has_element-map name l.cid (order.range String h)
            ∙ any-perm (λ (x : String × String). (x.0 == name) && (x.1 == l.cid))
                (order.range_perm String h)
            ∙ lookup-entry name l.cid h found,
      )

  -- If the IPFS node computes CIDs of version 0, the parcels' keys name such CIDs, the numbers of
  -- the metadata are Go ints, the manifest is not empty and the server answers its reads, then after
  -- ProcessUpload returned nil GetParcelInformation answers for each of the scene's parcels, with
  -- the root CID and the publisher of the upload and with every file of its manifest, each under a
  -- CID that the manifest gives its name.
  pub process_upload-get_parcel_information :
      (up : IsAnswering redis) (r : UploadRequest) (w w' : World R D) (p : String)
      → NamesCids is_cid_v0 (value_at w.redis)
      → HasInts r.metadata
      → r.manifest ≢ []
      → process_upload us r w ≡ (ok tt, w')
      → contains p r.scene.scene.parcels ≡ true
      → (pc : ParcelContent) × (t : R) × (get_parcel_information redis order p w'.redis
          ≡ (ok (some pc), t))
        × (pc.parcel_id ≡ p)
        × (pc.root_cid ≡ r.metadata.root_cid)
        × (pc.publisher ≡ r.metadata.pub_key)
        × ((c name : String)
            → names_file r.manifest c name ≡ true
            → (cid : String) × (names_file r.manifest cid name ≡ true)
              × (has_element name cid pc.contents ≡ true))
  process_upload-get_parcel_information up r w w' p names ints full h member =
      let root = r.metadata.root_cid in
      let (d, st, _) = process_upload-IsStored us v0 r w w' names h in
      let (c, name, named) = first_named r.manifest full in
      let l = st.listed c name named in
      let (reply, t, answer, same) =
        information-answers redis up order p root r.metadata.pub_key l.contents
          (insert_all (metadata_fields r.metadata) st.scene.older) w'.redis
          (stored_parcel us v0 r d (value_at w'.redis) st p member) l.at_key st.scene.metadata
          (λ m unique over. reply-typed r.metadata st.scene.older m ints unique over) in
      (
        _,
        t,
        answer,
        refl,
        refl,
        refl,
        λ c' name' named'.
            listed-has_element r (value_at w'.redis) l.contents reply name' l.at_key same
              (st.listed c' name' named'),
      )
