-- ===== src/Upload/Fields.antt =====
-- The metadata of an upload as a Redis hash: what StoreMetadata is given and GetParcelMetadata reads.
use content_service.Prelude.{◌≡◌, refl, [], ◌∷◌}
use content_service.Prelude.Int.{IsInt64}
use content_service.Prelude.Decimal.{atoi-show_ℤ}
use content_service.Go.{ok}
use content_service.Redis.Client.{text, number, typed_field, typed_fields}
use content_service.Upload.{Metadata, metadata_fields}

-- GetParcelMetadata types the fields that ProcessUpload stored back to the values of the metadata:
-- the validity type, the sequence and the timestamp to the same numbers, where these have 64 bits,
-- and every other field to its text. The value is found under "value " with a trailing space.
pub typed_fields-metadata_fields :
    (m : Metadata)
    → IsInt64 m.validity_type
    → IsInt64 m.sequence
    → IsInt64 m.timestamp
    → typed_fields (metadata_fields m)
      ≡ ok (
          ("value ", text m.value)
          ∷ ("signature", text m.signature)
          ∷ ("validity", text m.validity)
          ∷ ("validityType", number m.validity_type)
          ∷ ("sequence", number m.sequence)
          ∷ ("pubkey", text m.pub_key)
          ∷ ("root_cid", text m.root_cid)
          ∷ ("timestamp", number m.timestamp)
          ∷ [])
unfolding typed_fields typed_field metadata_fields
typed_fields-metadata_fields m i j k =
    rw (atoi-show_ℤ m.validity_type i, atoi-show_ℤ m.sequence j, atoi-show_ℤ m.timestamp k) refl
