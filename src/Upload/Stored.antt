-- ===== src/Upload/Stored.antt =====
-- processUploadedFiles: what the content storage holds after a successful upload.
use content_service.Prelude.{◌≡◌, String, false, List, [], ◌∷◌, Option, ◌==◌, Map, All}
use content_service.World.{World}
use content_service.Auth.{Bytes}
use content_service.Storage.{Storage, local_storage}
use content_service.Upload.{FileHeader}
use content_service.Upload.Service.{UploadService}

-- An entry whose file has another path than the part's.
abbrev IsElsewhere : (String → String) → String → String × List FileHeader → Type 0
IsElsewhere place k entry = (place entry.0 == place k) ≡ false

-- Different parts have different paths, so that no name comes twice and none is a spelling of another.
abbrev pub HasOnePathEach : (String → String) → Map (List FileHeader) → Type 0
HasOnePathEach place [] = Unit
HasOnePathEach place (entry ∷ files) =
    All (IsElsewhere place entry.0) files × HasOnePathEach place files

module _ {R D : Type 0} (us : UploadService R D) (root : String)
    (local : us.storage ≡ local_storage us.fs root) where
  open us use {storage, redis, order, ipfs_node, fs}

  -- The path of a part's file, and the file at the path.
  abbrev place : String → String
  place k = fs.join root k

  abbrev stored : D → String → Option Bytes
  stored s k = fs.file_at s (place k)
