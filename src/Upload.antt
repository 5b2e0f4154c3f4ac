-- ===== src/Upload.antt =====
-- The upload of a scene: the request types of internal/handlers/upload_handler.go and
-- upload_service.go, and the functions on them that touch no state.
pub mod Service
pub mod Cids
pub mod Integrity
pub mod Validation
pub mod Invariant
pub mod Scenes
pub mod Request
pub mod Handler
pub mod Sent
pub mod Parsing
pub mod Parsed
pub mod Status
pub mod Stored
pub mod Fields
pub mod Paths
pub mod Recorded
pub mod Kept
pub mod Names
pub mod Types
use content_service.Prelude.{
  ℕ, String, Bool, List, [], ◌∷◌, ◌++◌, Option, none, some, if◌then◌else◌, Map, insert, lookup,
}
use content_service.Prelude.Int.{ℤ}
use content_service.Prelude.Decimal.{show_ℤ}
use content_service.Prelude.Text.{contains_text}
use content_service.Go.{Result, ok, panicked}
use content_service.Storage.{Reader}

pub record FileMetadata : Type 0 where
  pub cid : String
  pub name : String

pub record Metadata : Type 0 where
  pub value : String
  pub signature : String
  pub validity : String
  pub validity_type : ℤ
  pub sequence : ℤ
  pub pub_key : String
  pub root_cid : String
  pub timestamp : ℤ

pub record SceneData : Type 0 where
  pub estate_id : ℤ
  pub parcels : List String
  pub base : String

-- The fields of scene.json that the service reads.
pub record SceneFile : Type 0 where
  pub owner : String
  pub scene : SceneData
  pub main : String

-- multipart.FileHeader: `opened` is what Open returns.
pub record FileHeader : Type 0 where
  pub filename : String
  pub size : ℤ
  pub content_type : String
  pub opened : Result Reader

pub record UploadRequest : Type 0 where
  pub metadata : Metadata
  pub manifest : List FileMetadata
  pub uploaded_files : Map (List FileHeader)
  pub scene : SceneFile
  pub origin : String

abbrev pub or_no_paths : Option (List String) → List String
or_no_paths none = []
or_no_paths (some paths) = paths

-- `paths := filesPaths[cid]`: a missing key is the empty slice.
abbrev pub paths_at : String → Map (List String) → List String
paths_at cid m = or_no_paths (lookup cid m)

-- The loop of groupFilePathsByCid.
unfoldable pub group_from : Map (List String) → List FileMetadata → Map (List String)
group_from m [] = m
group_from m (f ∷ files) = group_from (insert f.cid (paths_at f.cid m ++ f.name ∷ []) m) files

unfoldable pub group_file_paths_by_cid : List FileMetadata → Map (List String)
group_file_paths_by_cid files = group_from [] files

-- The CID of the first file whose name contains "scene.json", the empty text if there is none.
unfoldable pub scene_cid_of : List FileMetadata → String
scene_cid_of [] = ""
scene_cid_of (f ∷ files) = if contains_text f.name "scene.json" then f.cid else scene_cid_of files

-- structs.Map(metadata), with the keys of the `structs` tags, as HMSet writes it.
unfoldable pub metadata_fields : Metadata → Map String
metadata_fields m =
    ("value ", m.value)
    ∷ ("signature", m.signature)
    ∷ ("validity", m.validity)
    ∷ ("validityType", show_ℤ m.validity_type)
    ∷ ("sequence", show_ℤ m.sequence)
    ∷ ("pubkey", m.pub_key)
    ∷ ("root_cid", m.root_cid)
    ∷ ("timestamp", show_ℤ m.timestamp)
    ∷ []

-- logUploadRequest reads the first header of each uploaded file.
unfoldable pub log_upload_request : Map (List FileHeader) → Result (Unit {0})
log_upload_request [] = ok tt
log_upload_request ((cid, []) ∷ files) = panicked
log_upload_request ((cid, h ∷ hs) ∷ files) = log_upload_request files
