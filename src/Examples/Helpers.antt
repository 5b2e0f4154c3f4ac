-- ===== src/Examples/Helpers.antt =====
-- The theorems on parcels, access and signatures, at small inputs.
use content_service.Prelude.{
  ◌≤◌, ◌*◌, ◌≡◌, ◌≢◌, ◌↔◌, refl, String, true, List, [], ◌∷◌, none, some, ltb, if◌then◌else◌, arith,
  length, All, contains,
}
use content_service.Prelude.Int.{ℤ, pos, negsuc, ltb_ℤ, ◌≤ℤ◌, ◌-ℤ◌, ◌*ℤ◌, wrap64, ◌+ℤ◌}
use content_service.Prelude.Text.{split_comma}
use content_service.Prelude.Decimal.{atoi, show_ℤ, show_ℕ}
use content_service.Go.{ok, panicked, ◌>>=◌}
use content_service.Auth.{
  is_signature_valid, parse_parcel, user_can_modify_parcels, do_get, get_parcel_access_data,
  can_modify_parcel, can_modify_each, has_access,
}
use content_service.Auth.Access.{IsGranted, user_can_modify_parcels-IsGranted}
use content_service.Auth.Ids.{parse_parcel-parcel_id}
use content_service.Auth.Signatures.{is_signature_valid-short, is_signature_valid_iff, IsSignedBy}
use content_service.Parcels.{parcel_id, rect_size, minmax, column, columns, rect_to_parcels}
use content_service.Parcels.Rect.{rect_to_parcels-eq-grid, grid, low, high, rect_width}
use content_service.Parcels.Grid.{rect_to_parcels-lists, IsIdWithin}
use content_service.Parcels.Coordinates.{rect_size-overflow}
use content_service.Examples.Service.{Disk, land_api, wallet}

abbrev one_parcel : List String
one_parcel = "1,2" ∷ []

abbrev no_files : Disk
no_files path = none

access_run : user_can_modify_parcels land_api "0xkey" one_parcel no_files ≡ (ok true, no_files)
unfolding user_can_modify_parcels can_modify_each can_modify_parcel get_parcel_access_data do_get
    has_access ◌>>=◌ parse_parcel split_comma atoi
access_run = refl

user_can_modify_parcels-IsGranted_example :
    (one_parcel ≢ []) × All (IsGranted land_api "0xkey") one_parcel
user_can_modify_parcels-IsGranted_example =
    user_can_modify_parcels-IsGranted land_api "0xkey" one_parcel no_files no_files access_run

is_signature_valid-short_example : is_signature_valid wallet "QmRoot.1" "0xshort" "0xkey" ≡ panicked
is_signature_valid-short_example =
    is_signature_valid-short wallet "QmRoot.1" "0xshort" "0xkey" (1 ∷ []) refl (omega arith)

is_signature_valid_iff_example :
    (is_signature_valid wallet "QmRoot.1" "0xsig" "0xkey" ≡ ok true)
    ↔ IsSignedBy wallet "QmRoot.1" "0xsig" "0xkey"
is_signature_valid_iff_example = is_signature_valid_iff wallet "QmRoot.1" "0xsig" "0xkey"

parse_parcel-parcel_id_example :
    parse_parcel (parcel_id (negsuc 11) (pos 7)) ≡ ok (negsuc 11, pos 7)
parse_parcel-parcel_id_example =
    parse_parcel-parcel_id (negsuc 11) (pos 7) (omega arith) (omega arith)

rect_size-overflow_example : rect_size (pos 0) (pos 0) (pos 4294967295) (pos 4294967295) ≡ pos 0
rect_size-overflow_example = rect_size-overflow 0 0 (omega arith) (omega arith)

abbrev two_parcels : List String
two_parcels = "-1,2" ∷ "0,2" ∷ []

rect_to_parcels-eq-grid_example :
    rect_to_parcels (pos 0) (pos 2) (negsuc 0) (pos 2) (pos 200)
    ≡ ok (
        if ltb 200 (rect_width (pos 0) (negsuc 0) * rect_width (pos 2) (pos 2))
        then none
        else some (
            grid
              (low (pos 0) (negsuc 0))
              (low (pos 2) (pos 2))
              (rect_width (pos 0) (negsuc 0))
              (rect_width (pos 2) (pos 2))))
rect_to_parcels-eq-grid_example =
    rect_to_parcels-eq-grid (pos 0) (pos 2) (negsuc 0) (pos 2) 200 (omega arith) (omega arith)
      (omega arith) (omega arith)

two_parcels_run :
    rect_to_parcels (pos 0) (pos 2) (negsuc 0) (pos 2) (pos 200) ≡ ok (some two_parcels)
unfolding rect_to_parcels minmax rect_size column columns parcel_id wrap64 ◌+ℤ◌ ◌-ℤ◌ ◌*ℤ◌ show_ℤ
    show_ℕ
two_parcels_run = refl

rect_to_parcels-lists_example :
    (length two_parcels ≡ rect_width (pos 0) (negsuc 0) * rect_width (pos 2) (pos 2))
    × (length two_parcels ≤ 200)
    × All
        (IsIdWithin
          (low (pos 0) (negsuc 0))
          (low (pos 2) (pos 2))
          (rect_width (pos 0) (negsuc 0))
          (rect_width (pos 2) (pos 2)))
        two_parcels
    × ((a b : ℤ)
        → low (pos 0) (negsuc 0) ≤ℤ a
        → a ≤ℤ high (pos 0) (negsuc 0)
        → low (pos 2) (pos 2) ≤ℤ b
        → b ≤ℤ high (pos 2) (pos 2)
        → contains (parcel_id a b) two_parcels ≡ true)
rect_to_parcels-lists_example =
    rect_to_parcels-lists (pos 0) (pos 2) (negsuc 0) (pos 2) 200 two_parcels (omega arith)
      (omega arith) (omega arith) (omega arith) two_parcels_run

panic_size : ltb_ℤ (rect_size (pos 0) (pos 0) (pos 4294967295) (pos 2147483647)) (pos 0) ≡ true
unfolding rect_size wrap64 ◌+ℤ◌ ◌-ℤ◌ ◌*ℤ◌
panic_size = refl
