-- ===== src/Mappings/Metadata.antt =====
-- The metadata of an upload as GetParcelMetadata (data/redis.go) types what HGETALL answers, in
-- whatever order, and with what an older upload of the same root CID left in the hash.
use content_service.Prelude.{
  ◌≡◌, refl, sym, ap, ◌∙◌, String, true, false, [], ◌∷◌, some, ◌==◌, Map, has_key, All, All-map_imp,
  eq_iff, Bool-cases, inl, inr, arith, lookup-insert,
}
use content_service.Prelude.Maps.{lookup, insert}
use content_service.Prelude.Int.{ℤ, IsInt64}
use content_service.Prelude.Decimal.{atoi, show_ℤ, atoi-show_ℤ}
use content_service.Prelude.Entries.{HasUniqueKeys, entries-lookup}
use content_service.Go.{ok}
use content_service.Redis.{insert_all}
use content_service.Redis.Client.{Field, text, number, is_number_field, typed_field, typed_fields}
use content_service.Upload.{Metadata, metadata_fields}

-- The numbers of the metadata are Go ints.
pub record HasInts (m : Metadata) : Type 0 where
  pub validity_type : IsInt64 m.validity_type
  pub sequence : IsInt64 m.sequence
  pub timestamp : IsInt64 m.timestamp

abbrev IsNumber : String → Type 0
IsNumber v = (z : ℤ) × (atoi v ≡ some z)

-- A field that is read as a number parses.
abbrev IsTyped : String × String → Type 0
IsTyped e = is_number_field e.0 ≡ true → IsNumber e.1

-- What typing does to the field of a key: a text stays one.
abbrev KeepsTexts : Map String → Map Field → Type 0
KeepsTexts m fields =
    (k v : String)
    → is_number_field k ≡ false
    → lookup k m ≡ some v
    → lookup k fields ≡ some (text v)

cons_field_keeps :
    (key value : String) (m : Map String) (f : Field) (fields : Map Field)
    → (is_number_field key ≡ false → f ≡ text value)
    → KeepsTexts m fields
    → KeepsTexts ((key, value) ∷ m) ((key, f) ∷ fields)
unfolding lookup
cons_field_keeps key value m f fields first rest k v other h = elim (Bool-cases (key == k)) [
  | inl same ↦
      let h' = rw same at h in
      let values : value ≡ v = cc in
      let plain : is_number_field key ≡ false = rw ((eq_iff key k).0 same) other in
      rw same (ap some (first plain ∙ ap text values))
  | inr differ ↦ rw differ (rest k v other (rw differ at h))
]

typed_fields-total :
    (m : Map String)
    → All IsTyped m
    → (fields : Map Field) × (typed_fields m ≡ ok fields) × KeepsTexts m fields
unfolding typed_fields typed_field lookup
typed_fields-total [] h = ([], refl, λ k v other q. cc)
typed_fields-total ((key, value) ∷ m) (typed, h) =
    let (fields, e, keeps) = typed_fields-total m h in
    elim (Bool-cases (is_number_field key)) [
      | inl is_number ↦
          let (z, parsed) = typed is_number in
          (
            (key, number z) ∷ fields,
            rw (is_number, parsed, e) refl,
            cons_field_keeps key value m (number z) fields (λ q. cc) keeps,
          )
      | inr is_text ↦ (
        (key, text value) ∷ fields,
        rw (is_text, e) refl,
        cons_field_keeps key value m (text value) fields (λ q. refl) keeps,
      )
    ]

-- HMSET overwrites the fields that it names.
pub lookup-insert_all :
    (f v : String) (m old : Map String)
    → HasUniqueKeys m
    → lookup f m ≡ some v
    → lookup f (insert_all m old) ≡ some v
unfolding lookup
lookup-insert_all f v [] old _ h = cc
lookup-insert_all f v ((k, w) ∷ m) old (fresh, unique) h = elim (Bool-cases (k == f)) [
  | inl same ↦
      kept m (insert k w old) (rw ((eq_iff k f).0 same) at fresh)
      ∙ lookup-insert k f w old
      ∙ rw same (rw same at h)
  | inr other ↦ lookup-insert_all f v m (insert k w old) unique (rw other at h)
]
  where
    kept : (m h : Map String) → has_key f m ≡ false → lookup f (insert_all m h) ≡ lookup f h
    kept [] h absent = refl
    kept ((j, x) ∷ m) h absent =
        let other : (j == f) ≡ false = ground (arith, absent) in
        kept m (insert j x h) (ground (arith, absent)) ∙ lookup-insert j f x h ∙ rw other refl

pub metadata_fields-HasUniqueKeys : (m : Metadata) → HasUniqueKeys (metadata_fields m)
unfolding metadata_fields
metadata_fields-HasUniqueKeys m = (refl, (refl, (refl, (refl, (refl, (refl, (refl, (refl, tt))))))))

metadata_fields-IsNumber :
    (m : Metadata)
    → HasInts m
    → (k : String) → is_number_field k ≡ true
    → (v : String) × (lookup k (metadata_fields m) ≡ some v) × IsNumber v
unfolding metadata_fields lookup
metadata_fields-IsNumber m i k h = elim (Bool-cases (k == "validityType")) [
  | inl e ↦
      rw ((eq_iff k "validityType").0 e) (
        show_ℤ m.validity_type,
        refl,
        (m.validity_type, atoi-show_ℤ m.validity_type i.validity_type),
      )
  | inr e ↦ elim (Bool-cases (k == "sequence")) [
    | inl e' ↦
        rw ((eq_iff k "sequence").0 e')
          (show_ℤ m.sequence, refl, (m.sequence, atoi-show_ℤ m.sequence i.sequence))
    | inr e' ↦
        let last : (k == "timestamp") ≡ true = ground (arith, h, e, e') in
        rw ((eq_iff k "timestamp").0 last)
          (show_ℤ m.timestamp, refl, (m.timestamp, atoi-show_ℤ m.timestamp i.timestamp))
  ]
]

-- What GetParcelMetadata makes of a reply that has the fields of the metadata over older ones.
pub reply-typed :
    (m : Metadata) (older reply : Map String)
    → HasInts m
    → HasUniqueKeys reply
    → ((f : String) → lookup f reply ≡ lookup f (insert_all (metadata_fields m) older))
    → (fields : Map Field) × (typed_fields reply ≡ ok fields)
      × (lookup "root_cid" fields ≡ some (text m.root_cid))
      × (lookup "pubkey" fields ≡ some (text m.pub_key))
unfolding metadata_fields lookup
reply-typed m older reply i unique same =
    let over : (f v : String) → lookup f (metadata_fields m) ≡ some v → lookup f reply ≡ some v =
      λ f v h.
        same f
        ∙ lookup-insert_all f v (metadata_fields m) older (metadata_fields-HasUniqueKeys m) h in
    let typed =
      All-map_imp reply
        (λ e found is_number.
          let (v, stored, (z, parsed)) = metadata_fields-IsNumber m i e.0 is_number in
          let value : v ≡ e.1 = let twice = sym (over e.0 v stored) ∙ found in cc in
          (z, ap atoi (sym value) ∙ parsed))
        (entries-lookup reply unique) in
    let (fields, e, keeps) = typed_fields-total reply typed in
    (
      fields,
      e,
      keeps "root_cid" m.root_cid refl (over "root_cid" m.root_cid refl),
      keeps "pubkey" m.pub_key refl (over "pubkey" m.pub_key refl),
    )
