-- ===== src/Replication/Copied.antt =====
-- What a replication that ends well has copied: the key, the metadata and the content of each parcel.
use content_service.Prelude.{
  ◌≡◌, refl, ap, ◌∙◌, String, true, false, List, [], ◌∷◌, Option, some, ◌==◌, if◌then◌else◌, Map,
  has_key, has_key-insert, All, eq_refl, eq_iff, Bool-cases, inl, inr, arith,
}
use content_service.Prelude.Maps.{lookup, insert}
use content_service.Prelude.Text.{◌+++◌, append_cancel}
use content_service.Go.{ok}
use content_service.Go.Inversion.{>>=-eq-ok}
use content_service.World.{World, on_disk, on_disk-eq-ok, on_redis-eq-ok}
use content_service.Redis.{RedisServer, Value, str, hash, hash_of, insert_all}
use content_service.Redis.Client
use content_service.Redis.Keys.{
  is_parcel_key, content_key-plain, metadata_key-plain, different_keys, content_key-first,
  metadata_key-first,
}
use content_service.Redis.Scenes.{Keyspace}
use content_service.Redis.Ownership.{plain-ne-parcel}
use content_service.Storage.{Storage}
use content_service.Upload.{Metadata, metadata_fields}
use content_service.Mappings.{ContentElement, ParcelContent}
use content_service.Mappings.Metadata.{lookup-insert_all, metadata_fields-HasUniqueKeys}
use content_service.Replication.{Source, copy_element, download_url}

abbrev pub content_key : String → String
content_key root = Client.content_key_prefix +++ root

abbrev pub metadata_key : String → String
metadata_key root = Client.metadata_key_prefix +++ root

-- The hash at the key has the field.
pub record HasField (d : Keyspace) (key field : String) : Type 0 where
  pub fields : Map String
  pub at_key : d key ≡ some (hash fields)
  pub present : has_key field fields ≡ true

-- The parcel's key names the root CID, whose metadata has it.
pub record IsNamed (d : Keyspace) (pid root : String) : Type 0 where
  pub owner : d pid ≡ some (str root)
  pub fields : Map String
  pub metadata : d (metadata_key root) ≡ some (hash fields)
  pub root_cid : lookup "root_cid" fields ≡ some root

-- The parcel is named, and the content of its root CID has its files.
pub record IsReplicated (d : Keyspace) (pc : ParcelContent) : Type 0 where
  pub root : String
  pub named : IsNamed d pc.parcel_id root
  pub files : All (λ e. HasField d (content_key root) e.file) pc.contents

hash_injective :
    (v : Option Value) (g h : Map String) → hash_of v ≡ some g → v ≡ some (hash h) → g ≡ h
hash_injective v g h e q = let e' = rw q at e in cc

-- A write of one more field, to whatever hash.
HasField-write :
    (d e : Keyspace) (written f c key field : String) (h : Map String)
    → hash_of (d written) ≡ some h
    → ((j : String) → e j ≡ (if written == j then some (hash (insert f c h)) else d j))
    → HasField d key field
    → HasField e key field
HasField-write d e written f c key field h found write has = elim (Bool-cases (written == key)) [
  | inl same ↦
      let path = (eq_iff written key).0 same in
      let value : h ≡ has.fields = hash_injective _ h has.fields found (rw path has.at_key) in
      record {
        fields = insert f c h;
        at_key = write key ∙ rw same refl;
        present = has_key-insert f field c h ∙ rw value (rw has.present (ground arith));
      }
  | inr other ↦ record {
    fields = has.fields;
    at_key = write key ∙ rw other has.at_key;
    present = has.present;
  }
]

pub parcel-ne-plain :
    (a b : String) → is_parcel_key a ≡ true → is_parcel_key b ≡ false → (a == b) ≡ false
parcel-ne-plain a b h k = ground (arith, plain-ne-parcel b a k h, eq_iff a b, eq_iff b a)

pub HasField-other :
    (d e : Keyspace) (key field : String)
    → e key ≡ d key
    → HasField d key field
    → HasField e key field
HasField-other d e key field same has = record {
  fields = has.fields;
  at_key = same ∙ has.at_key;
  present = has.present;
}

-- A field of some content stays when other content gets one.
IsNamed-content :
    (d e : Keyspace) (pid root other : String) (v : Value)
    → is_parcel_key pid ≡ true
    → ((j : String) → e j ≡ (if content_key other == j then some v else d j))
    → IsNamed d pid root
    → IsNamed e pid root
IsNamed-content d e pid root other v parcel write n = record {
  owner = write pid ∙ rw (plain-ne-parcel _ pid (content_key-plain other) parcel) n.owner;
  fields = n.fields;
  metadata =
      write (metadata_key root)
      ∙ rw
          (different_keys (content_key other) (metadata_key root) 99 109 (content_key-first other)
            (metadata_key-first root) (omega arith))
          n.metadata;
  root_cid = n.root_cid;
}

pub stored_root :
    (m : Metadata) (old : Map String)
    → lookup "root_cid" (insert_all (metadata_fields m) old) ≡ some m.root_cid
unfolding metadata_fields lookup
stored_root m old =
    lookup-insert_all "root_cid" m.root_cid (metadata_fields m) old
      (metadata_fields-HasUniqueKeys m) refl

-- Metadata is overwritten only by metadata of the same root CID.
pub IsNamed-metadata :
    (d e : Keyspace) (pid root : String) (m : Metadata) (old : Map String)
    → is_parcel_key pid ≡ true
    → ((j : String)
        → e j ≡ (
            if metadata_key m.root_cid == j
            then some (hash (insert_all (metadata_fields m) old))
            else d j))
    → IsNamed d pid root
    → IsNamed e pid root
IsNamed-metadata d e pid root m old parcel write n =
    elim (Bool-cases (metadata_key m.root_cid == metadata_key root)) [
      | inl same ↦
          let roots =
            append_cancel Client.metadata_key_prefix m.root_cid root ((eq_iff _ _).0 same) in
          record {
            owner = owner;
            fields = insert_all (metadata_fields m) old;
            metadata = write (metadata_key root) ∙ rw same refl;
            root_cid = stored_root m old ∙ ap some roots;
          }
      | inr other ↦ record {
        owner = owner;
        fields = n.fields;
        metadata = write (metadata_key root) ∙ rw other n.metadata;
        root_cid = n.root_cid;
      }
    ]
  where
    owner : e pid ≡ some (str root)
    owner = write pid ∙ rw (plain-ne-parcel _ pid (metadata_key-plain m.root_cid) parcel) n.owner

pub trivial_elements : (es : List ContentElement) → All (λ _. Unit {0}) es
trivial_elements [] = tt
trivial_elements (e ∷ es) = (tt, trivial_elements es)

module _ {R D : Type 0} (srv : RedisServer R) (sto : Storage D) (source : Source D) where
  open srv use {value_at}
  open source use {http_get}

  abbrev keys : World R D → Keyspace
  keys w = value_at w.redis

  pub copy_element-writes :
      (url root : String) (el : ContentElement) (w w' : World R D)
      → copy_element srv sto source url root el w ≡ (ok tt, w')
      → (h : Map String) × (hash_of (keys w (content_key root)) ≡ some h)
        × ((j : String)
            → keys w' j
              ≡ (if content_key root == j then some (hash (insert el.file el.cid h)) else keys w j))
  unfolding copy_element
  copy_element-writes url root el w w' run =
      let (resp, w1, e1, k1) = >>=-eq-ok (on_disk (http_get (download_url url el.cid))) _ w run in
      let (_, same1) = on_disk-eq-ok (http_get (download_url url el.cid)) w w1 resp e1 in
      let save = sto.save_file el.cid resp.body resp.content_type in
      let (loc, w2, e2, k2) = >>=-eq-ok (on_disk save) _ w1 k1 in
      let (_, same2) = on_disk-eq-ok save w1 w2 loc e2 in
      let (ran, _) = on_redis-eq-ok (srv.hset (content_key root) el.file el.cid) w2 w' tt k2 in
      let (h, found, write) = srv.hset_ok _ el.file el.cid w2.redis w'.redis ran in
      let same : keys w2 ≡ keys w = ap value_at (same2 ∙ same1) in
      (h, rw same at found, λ j. rw same at (write j))

  pub copy_element-HasField :
      (url root : String) (el : ContentElement) (w w' : World R D)
      → copy_element srv sto source url root el w ≡ (ok tt, w')
      → HasField (keys w') (content_key root) el.file
  copy_element-HasField url root el w w' run =
      let (h, _, write) = copy_element-writes url root el w w' run in
      record {
        fields = insert el.file el.cid h;
        at_key = write (content_key root) ∙ rw (eq_refl (content_key root)) refl;
        present = has_key-insert el.file el.file el.cid h ∙ rw (eq_refl el.file) refl;
      }

  pub copy_element-keeps_field :
      (url root key field : String) (el : ContentElement) (w w' : World R D)
      → HasField (keys w) key field
      → copy_element srv sto source url root el w ≡ (ok tt, w')
      → HasField (keys w') key field
  copy_element-keeps_field url root key field el w w' has run =
      let (h, found, write) = copy_element-writes url root el w w' run in
      HasField-write (keys w) (keys w') (content_key root) el.file el.cid key field h found write
        has

  pub copy_element-IsNamed :
      (url root pid owner : String) (el : ContentElement) (w w' : World R D)
      → is_parcel_key pid ≡ true
      → IsNamed (keys w) pid owner
      → copy_element srv sto source url root el w ≡ (ok tt, w')
      → IsNamed (keys w') pid owner
  copy_element-IsNamed url root pid owner el w w' parcel n run =
      let (h, _, write) = copy_element-writes url root el w w' run in
      IsNamed-content (keys w) (keys w') pid owner root (hash _) parcel write n
