-- ===== src/Upload/Request.antt =====
-- internal/handlers/upload_handler.go: the parts of a multipart request, and parseRequest. JSON
-- decoding, the struct validator and regular expressions are parameters; metrics and logging are
-- left out.
use content_service.Prelude.{
  String, Bool, true, false, List, [], ◌∷◌, Option, none, some, ltb, ◌==◌, if◌then◌else◌, Map,
  lookup, length, MapRange,
}
use content_service.Prelude.Int.{ℤ, pos, ◌-ℤ◌, ◌*ℤ◌, ltb_ℤ, wrap64}
use content_service.Prelude.Decimal.{show_ℕ, show_ℤ}
use content_service.Prelude.Text.{◌+++◌, join, trim_prefix}
use content_service.Go.{
  GoError, invalid_argument, required_value, unexpected, Result, ok, err, panicked, Exec, pure,
  raise, lift, ◌>>=◌, ◌>>◌, on_error,
}
use content_service.Storage.{Reader}
use content_service.Upload.{FileMetadata, Metadata, SceneFile, FileHeader, UploadRequest}

-- encoding/json, the validator of validation/validation.go and package regexp. A manifest that is
-- the JSON value `null` decodes to a nil pointer, the inner `none`. `matches pattern text` is
-- MustCompile and MatchString: a pattern that does not compile panics.
pub record Codec : Type 0 where
  pub decode_metadata : String → Option Metadata
  pub decode_manifest : String → Option (Option (List FileMetadata))
  pub decode_scene : Reader → Option SceneFile
  pub valid_metadata : Metadata → Bool
  pub entry_error : FileMetadata → Option String
  pub valid_scene : SceneFile → Bool
  pub request_error : UploadRequest → Option String
  pub matches : String → String → Result Bool

-- A parsed multipart form: its values and its files.
pub record Form : Type 0 where
  pub values : Map (List String)
  pub files : Map (List FileHeader)

-- What parseRequest reads of the HTTP request; `form` is what ParseMultipartForm gives.
pub record HttpRequest : Type 0 where
  pub form : Result Form
  pub origin : String

-- The fields of uploadHandlerImpl that parseRequest uses. `assets_limit` is
-- Limits.ParcelAssetsLimit, `order` the order of its loops over a map.
pub record UploadHandler : Type 1 where
  pub codec : Codec
  pub filter_pattern : String
  pub assets_limit : ℤ
  pub time_to_live : ℤ
  pub order : MapRange

-- NewContentTypeFilter: the pattern of a list of allowed types.
unfoldable pub new_content_type_filter : List String → String
new_content_type_filter [] = ".*"
new_content_type_filter (t ∷ types) = "(" +++ join (t ∷ types) "?)|(" +++ "?)"

unfoldable pub has_request_expired : ℤ → Metadata → ℤ → Bool
has_request_expired now m ttl = ltb_ℤ ttl (wrap64 (now -ℤ m.timestamp))

-- The first value of a form field: a field without values is an index out of range.
abbrev pub first_value : List String → Result String
first_value [] = panicked
first_value (v ∷ vs) = ok v

module _ (codec : Codec) where
  open codec use {
    decode_metadata, decode_manifest, decode_scene, valid_metadata, entry_error, valid_scene,
    matches,
  }

  unfoldable pub is_allowed : String → String → Result Bool
  is_allowed pattern t = matches pattern t

  abbrev pub allowed_header : FileHeader → Result Bool → Result (Unit {0}) → Result (Unit {0})
  allowed_header f (ok true) rest = rest
  allowed_header f (ok false) rest =
      err (
        invalid_argument
          ("Invalid  Content-type: " +++ f.content_type +++ " File: " +++ f.filename))
  allowed_header f (err e) rest = err e
  allowed_header f panicked rest = panicked

  abbrev pub and_then : Result (Unit {0}) → Result (Unit {0}) → Result (Unit {0})
  and_then (ok _) rest = rest
  and_then (err e) rest = err e
  and_then panicked rest = panicked

  unfoldable pub validate_headers : String → List FileHeader → Result (Unit {0})
  validate_headers pattern [] = ok tt
  validate_headers pattern (f ∷ fs) =
      allowed_header f (is_allowed pattern f.content_type) (validate_headers pattern fs)

  unfoldable pub validate_content_types : String → Map (List FileHeader) → Result (Unit {0})
  validate_content_types pattern [] = ok tt
  validate_content_types pattern ((cid, headers) ∷ files) =
      and_then (validate_headers pattern headers) (validate_content_types pattern files)

  -- The root CID comes from the value, whatever the text of the request says.
  abbrev pub with_root_cid : Metadata → Metadata
  with_root_cid m = record m { root_cid = trim_prefix m.value "/ipfs/" }

  abbrev pub checked_metadata : Option Metadata → Result Metadata
  checked_metadata none = err (invalid_argument "invalid metadata content")
  checked_metadata (some m) =
      if valid_metadata (with_root_cid m)
      then ok (with_root_cid m)
      else err (invalid_argument "invalid metadata content")

  unfoldable pub parse_scene_metadata : String → Result Metadata
  parse_scene_metadata text = checked_metadata (decode_metadata text)

  abbrev pub metadata_of : {S : Type 0} → Option (List String) → Exec S Metadata
  metadata_of none = raise (required_value "missing metadata part in multipart")
  metadata_of (some values) = do text ← lift (first_value values); lift (parse_scene_metadata text)

  unfoldable pub get_metadata : {S : Type 0} → Form → Exec S Metadata
  get_metadata form = metadata_of (lookup "metadata" form.values)

  abbrev pub checked_scene : Option SceneFile → Result SceneFile
  checked_scene none = err (invalid_argument "invalid scene.json content")
  checked_scene (some sce) =
      if valid_scene sce then ok sce else err (invalid_argument "invalid scene.json content")

  unfoldable pub parse_scene_json_file : Reader → Result SceneFile
  parse_scene_json_file file = checked_scene (decode_scene file)

  abbrev pub opened_scene : Result Reader → Result SceneFile
  opened_scene (ok file) = parse_scene_json_file file
  opened_scene (err e) = err (invalid_argument "invalid scene.json")
  opened_scene panicked = panicked

  -- The scene is the first part of the request whose file name is scene.json.
  unfoldable pub get_scene : Map (List FileHeader) → Result SceneFile
  get_scene [] = err (required_value "missing scene.json")
  get_scene ((cid, []) ∷ files) = panicked
  get_scene ((cid, h ∷ hs) ∷ files) =
      if h.filename == "scene.json" then opened_scene h.opened else get_scene files

  abbrev pub entry_result : Option String → Result (Unit {0}) → Result (Unit {0})
  entry_result none rest = rest
  entry_result (some message) rest = err (invalid_argument message)

  unfoldable pub validate_entries : List FileMetadata → Result (Unit {0})
  validate_entries [] = ok tt
  validate_entries (m ∷ manifest) = entry_result (entry_error m) (validate_entries manifest)

  -- `*filesMeta` of a nil pointer panics.
  abbrev pub checked_manifest :
      {S : Type 0} → Option (Option (List FileMetadata)) → Exec S (List FileMetadata)
  checked_manifest none = raise (invalid_argument "invalid manifest")
  checked_manifest (some none) = lift panicked
  checked_manifest (some (some manifest)) = do lift (validate_entries manifest); pure manifest

  unfoldable pub parse_files_metadata : {S : Type 0} → String → Exec S (List FileMetadata)
  parse_files_metadata text = checked_manifest (decode_manifest text)

  abbrev pub manifest_of : {S : Type 0} → Option (List String) → Exec S (List FileMetadata)
  manifest_of none = raise (required_value "missing content in multipart")
  manifest_of (some values) = do text ← lift (first_value values); parse_files_metadata text

  unfoldable pub get_manifest_content : {S : Type 0} → Form → String → Exec S (List FileMetadata)
  get_manifest_content form cid = manifest_of (lookup cid form.values)

abbrev pub refuse_if : {S : Type 0} → Bool → GoError → Exec S Unit
refuse_if true e = raise e
refuse_if false e = pure tt

abbrev pub refuse_some : {S : Type 0} → Option String → (String → GoError) → Exec S Unit
refuse_some none f = pure tt
refuse_some (some message) f = raise (f message)

unfoldable pub max_elements : SceneFile → ℤ → ℤ
max_elements sce files_per_scene = wrap64 (pos (length sce.scene.parcels) *ℤ files_per_scene)

abbrev pub request_of : Form → String → Metadata → List FileMetadata → SceneFile → UploadRequest
request_of form origin metadata manifest scene = record {
  metadata = metadata;
  manifest = manifest;
  uploaded_files = form.files;
  scene = scene;
  origin = origin;
}

module _ (uh : UploadHandler) {S : Type 0} where
  open uh use {codec, filter_pattern, assets_limit, time_to_live, order}

  -- The metadata part, and the test of its timestamp.
  unfoldable pub parse_metadata : ℤ → Form → Exec S Metadata
  parse_metadata now form = do
    metadata ← get_metadata codec form
    refuse_if (has_request_expired now metadata time_to_live) (invalid_argument "expired request")
    pure metadata

  -- The manifest part, and the tests of the files' content types and number.
  unfoldable pub parse_manifest : Form → String → Exec S (List FileMetadata)
  parse_manifest form root_cid = do
    manifest ← get_manifest_content codec form root_cid
    lift (validate_content_types codec filter_pattern (order.range (List FileHeader) form.files))
    refuse_if (ltb (length manifest) (length form.files))
        (invalid_argument "request contains too many files")
    pure manifest

  -- The scene, and the test of the number of its elements.
  unfoldable pub parse_scene : Form → List FileMetadata → Exec S SceneFile
  parse_scene form manifest = do
    scene ← lift (get_scene codec (order.range (List FileHeader) form.files))
    refuse_if (ltb_ℤ (max_elements scene assets_limit) (pos (length manifest))) (
        invalid_argument (
          "Max Elements per scene exceeded. Max Value: "
          +++ show_ℤ assets_limit
          +++ ", Got: "
          +++ show_ℕ (length manifest)))
    pure scene

  unfoldable pub parse_request : ℤ → HttpRequest → Exec S UploadRequest
  parse_request now r = do
    form ← on_error (lift r.form) λ e. raise (unexpected "error parsing request form" e)
    metadata ← parse_metadata now form
    manifest ← parse_manifest form metadata.root_cid
    scene ← parse_scene form manifest
    refuse_some (codec.request_error (request_of form r.origin metadata manifest scene))
        required_value
    pure (request_of form r.origin metadata manifest scene)
