-- ===== src/Auth.antt =====
-- data/authorization.go and the client of the land API in data/decentraland.go. The hash and curve
-- functions of go-ethereum and the HTTP exchange are parameters; logging and metrics are left out.
pub mod Access
pub mod Ids
pub mod Signatures
use Prim.Native.String.{len}
use content_service.Prelude.{
  ℕ, zero, suc, ◌-◌, String, Bool, true, false, ◌||◌, List, [], ◌∷◌, Option, none, some, leb,
  nat_eq, if◌then◌else◌,
}
use content_service.Prelude.Int.{ℤ}
use content_service.Prelude.Decimal.{atoi, show_ℕ, show_ℤ}
use content_service.Prelude.Text.{◌+++◌, split_comma}
use content_service.Go.{plain, Result, ok, err, panicked, Exec, pure, raise, lift, ◌>>=◌}

abbrev pub Bytes : Type 0
Bytes = List ℕ

-- bytes.Equal
abbrev pub bytes_equal : Bytes → Bytes → Bool
bytes_equal [] [] = true
bytes_equal (x ∷ xs) (y ∷ ys) = if nat_eq x y then bytes_equal xs ys else false
bytes_equal _ _ = false

-- b[i]; `none` is an index out of range.
abbrev pub get_elem? : Bytes → ℕ → Option ℕ
get_elem? [] i = none
get_elem? (x ∷ xs) zero = some x
get_elem? (x ∷ xs) (suc i) = get_elem? xs i

abbrev pub set_elem : Bytes → ℕ → ℕ → Bytes
set_elem [] i v = []
set_elem (x ∷ xs) zero v = v ∷ xs
set_elem (x ∷ xs) (suc i) v = x ∷ set_elem xs i v

-- go-ethereum: `none` is an error of the call. `address_of` is UnmarshalPubkey and then
-- PubkeyToAddress.
pub record Crypto : Type 0 where
  pub keccak256 : String → Bytes
  pub hex_decode : String → Option Bytes
  pub ecrecover : Bytes → Bytes → Option Bytes
  pub address_of : Bytes → Option Bytes

module _ (crypto : Crypto) where
  open crypto use {keccak256, hex_decode, ecrecover, address_of}

  -- The message that a wallet signs for `msg`.
  unfoldable pub with_prefix : String → String
  with_prefix msg = "\u{19}Ethereum Signed Message:\n" +++ show_ℕ (len msg) +++ msg

  -- `sigBytes[64] -= 27` for the recovery ids 27 and 28.
  unfoldable pub recovery_id : Bytes → ℕ → Bytes
  recovery_id sig v = if nat_eq v 27 || nat_eq v 28 then set_elem sig 64 (v - 27) else sig

  -- The address of the unmarshalled key is compared with the owner's; a key that cannot be
  -- unmarshalled is a nil pointer, which is dereferenced.
  abbrev matches_owner : Option Bytes → Option Bytes → Result Bool
  matches_owner none owner = panicked
  matches_owner (some signer) none = ok false
  matches_owner (some signer) (some owner) = ok (bytes_equal signer owner)

  abbrev recovered : String → Option Bytes → Result Bool
  recovered hex_address none = ok false
  recovered hex_address (some key) = matches_owner (address_of key) (hex_decode hex_address)

  abbrev check_signature : String → String → Bytes → Option ℕ → Result Bool
  check_signature msg hex_address sig none = panicked
  check_signature msg hex_address sig (some v) =
      recovered hex_address (ecrecover (keccak256 (with_prefix msg)) (recovery_id sig v))

  abbrev decoded_signature : String → String → Option Bytes → Result Bool
  decoded_signature msg hex_address none = ok false
  decoded_signature msg hex_address (some sig) =
      check_signature msg hex_address sig (get_elem? sig 64)

  unfoldable pub is_signature_valid : String → String → String → Result Bool
  unfolding recovery_id
  is_signature_valid msg hex_signature hex_address =
      decoded_signature msg hex_address (hex_decode hex_signature)

-- The fields of the reply that are read. HasAccess is `is_update_authorized`.
pub record AccessData : Type 0 where
  pub is_update_authorized : Bool

unfoldable pub has_access : AccessData → Bool
has_access ad = ad.is_update_authorized

pub record HttpResponse : Type 0 where
  pub status_code : ℕ
  pub body : String

-- http.Get, the JSON decoder (whose nil `data` is `none`), the URL of the API and the packages
-- net/url and path: `with_path` is the unescaped text of a URL whose path was changed, `none` where
-- url.Parse gives nil.
pub record LandApi (D : Type 0) : Type 0 where
  pub http_get : String → Exec D HttpResponse
  pub decode : String → Result (Option AccessData)
  pub api_url : String
  pub with_path : String → (String → String) → Option String
  pub path_join : String → String → String

module _ {D : Type 0} (api : LandApi D) where
  open api use {http_get, decode, api_url, with_path, path_join}

  -- A URL that does not parse is a nil pointer, which is dereferenced.
  abbrev url_or_panic : Option String → Result String
  url_or_panic none = panicked
  url_or_panic (some url) = ok url

  abbrev pub build_url : String → String → Result String
  build_url base_path rel_path = url_or_panic (with_path base_path λ p. path_join p rel_path)

  abbrev pub access_path : String → ℤ → ℤ → String
  access_path address x y =
      "parcels/" +++ show_ℤ x +++ "/" +++ show_ℤ y +++ "/" +++ address +++ "/authorizations"

  unfoldable pub do_get : String → Exec D (Option AccessData)
  do_get url = do
    resp ← http_get url
    if leb 400 resp.status_code
        then raise (plain "DCL Replied with an error")
        else lift (decode resp.body)

  unfoldable pub get_parcel_access_data : String → ℤ → ℤ → Exec D (Option AccessData)
  get_parcel_access_data address x y = do
    url ← lift (build_url api_url (access_path address x y))
    do_get url

-- The coordinates of a parcel id: two integers of 64 bits with a comma between them.
abbrev coordinates_of : Option ℤ → Option ℤ → Result (ℤ × ℤ)
coordinates_of none y = err (plain "strconv.ParseInt: parsing x")
coordinates_of (some x) none = err (plain "strconv.ParseInt: parsing y")
coordinates_of (some x) (some y) = ok (x, y)

abbrev two_parts : String → List String → Result (ℤ × ℤ)
two_parts parcel (a ∷ b ∷ []) = coordinates_of (atoi a) (atoi b)
two_parts parcel _ = err (plain ("invalid Coordinate: " +++ parcel))

unfoldable pub parse_parcel : String → Result (ℤ × ℤ)
parse_parcel parcel = two_parts parcel (split_comma parcel)

module _ {D : Type 0} (api : LandApi D) where
  -- `access.HasAccess()` on a nil reply is a nil dereference.
  abbrev access_granted : Option AccessData → Result Bool
  access_granted none = panicked
  access_granted (some access) = ok (has_access access)

  unfoldable pub can_modify_parcel : String → String → Exec D Bool
  can_modify_parcel pubkey parcel = do
    (x, y) ← lift (parse_parcel parcel)
    access ← get_parcel_access_data api pubkey x y
    lift (access_granted access)

  -- The loop of UserCanModifyParcels; it stops at the first parcel with no access.
  unfoldable pub can_modify_each : String → List String → Exec D Bool
  can_modify_each pubkey [] = pure true
  can_modify_each pubkey (p ∷ ps) = do
    granted ← can_modify_parcel pubkey p
    if granted then can_modify_each pubkey ps else pure false

  unfoldable pub user_can_modify_parcels : String → List String → Exec D Bool
  user_can_modify_parcels pubkey [] = raise (plain "There must be at least one parcel")
  user_can_modify_parcels pubkey (p ∷ ps) = can_modify_each pubkey (p ∷ ps)
