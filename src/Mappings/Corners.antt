-- ===== src/Mappings/Corners.antt =====
-- GetMappings reads the corners of its rectangle with parseCoordinates.
use content_service.Prelude.{◌≡◌, refl, some, MapRange}
use content_service.Prelude.Int.{ℤ, IsInt64}
use content_service.Parcels.{parcel_id}
use content_service.Parcels.Coordinates.{parse_coordinates-parcel_id}
use content_service.Redis.{RedisServer}
use content_service.Mappings.{nw_coord, se_coord, get_mappings}

module _ {S : Type 0} (srv : RedisServer S) (order : MapRange) where
  -- GetMappings between the corners "x1,y1" and "x2,y2" gives what it gives between "x1,x1" and
  -- "x2,x2", for all 64-bit x1 and x2: the y coordinates of the query are not used.
  pub get_mappings-parcel_id :
      (x1 y1 x2 y2 : ℤ) (s : S)
      → IsInt64 x1
      → IsInt64 x2
      → get_mappings srv order (some (record { nw = parcel_id x1 y1; se = parcel_id x2 y2 })) s
        ≡ get_mappings srv order (some (record { nw = parcel_id x1 x1; se = parcel_id x2 x2 })) s
  unfolding get_mappings nw_coord se_coord
  get_mappings-parcel_id x1 y1 x2 y2 s h k =
      rw
        (
          parse_coordinates-parcel_id x1 y1 h,
          parse_coordinates-parcel_id x2 y2 k,
          parse_coordinates-parcel_id x1 x1 h,
          parse_coordinates-parcel_id x2 x2 k,
        )
        refl
