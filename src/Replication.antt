-- ===== src/Replication.antt =====
-- cmd/replication/replication.go: the command that copies the parcels of a rectangle from a running
-- server. The exchange over HTTP and the decoding of JSON are parameters. log.Fatal ends the process:
-- it is an error here, and what was written before stays.
pub mod Copied
pub mod Parcels
use content_service.Prelude.{String, List, [], ◌∷◌}
use content_service.Prelude.Text.{◌+++◌, split_comma}
use content_service.Go.{
  plain, Result, ok, panicked, Exec, raise, lift, ◌>>=◌, ◌>>◌, on_error, for_each,
}
use content_service.World.{World, on_redis, on_disk}
use content_service.Redis.{RedisServer}
use content_service.Storage.{Reader, Storage}
use content_service.Upload.{Metadata, metadata_fields}
use content_service.Mappings.{ContentElement, ParcelContent}

-- What http.Get gives: the body and its type. The command looks at no status.
pub record Download : Type 0 where
  pub body : Reader
  pub content_type : String

-- The other server, and the decoders of its replies.
pub record Source (D : Type 0) : Type 0 where
  pub http_get : String → Exec D Download
  pub decode_contents : Reader → Result (List ParcelContent)
  pub decode_metadata : Reader → Result Metadata

-- The five arguments of the command.
pub record Arguments : Type 0 where
  pub x1 : String
  pub y1 : String
  pub x2 : String
  pub y2 : String
  pub url : String

unfoldable pub mappings_url : Arguments → String
mappings_url a =
    a.url +++ "mappings?nw=" +++ a.x1 +++ "," +++ a.y1 +++ "&se=" +++ a.x2 +++ "," +++ a.y2

-- A parcel id without a comma has no second part: xy[1] is out of range.
unfoldable pub validate_url : String → List String → Result String
validate_url url (x ∷ y ∷ parts) = ok (url +++ "validate?x=" +++ x +++ "&y=" +++ y)
validate_url url _ = panicked

unfoldable pub download_url : String → String → String
download_url url cid = url +++ "contents?" +++ cid

module _ {R D : Type 0} (srv : RedisServer R) (sto : Storage D) (source : Source D) where
  open source use {http_get, decode_contents, decode_metadata}

  -- A failed request for the metadata is reported with the outer error, which is nil.
  unfoldable pub fetch_metadata : String → String → Exec D Metadata
  fetch_metadata url parcel_id = do
    validate ← lift (validate_url url (split_comma parcel_id))
    resp ← on_error (http_get validate) λ e. raise (plain "<nil>")
    lift (decode_metadata resp.body)

  unfoldable pub copy_element : String → String → ContentElement → Exec (World R D) Unit
  copy_element url root element = do
    resp ← on_disk (http_get (download_url url element.cid))
    _ ← on_disk (sto.save_file element.cid resp.body resp.content_type)
    on_redis (srv.hset ("content_" +++ root) element.file element.cid)

  unfoldable pub copy_parcel : String → ParcelContent → Exec (World R D) Unit
  copy_parcel url parcel = do
    metadata ← on_disk (fetch_metadata url parcel.parcel_id)
    on_redis (srv.set parcel.parcel_id metadata.root_cid)
    on_redis (srv.hmset ("metadata_" +++ metadata.root_cid) (metadata_fields metadata))
    for_each parcel.contents (copy_element url metadata.root_cid)

  unfoldable pub fetch_contents : Arguments → Exec D (List ParcelContent)
  fetch_contents a = do resp ← http_get (mappings_url a); lift (decode_contents resp.body)

  unfoldable pub replicate : Arguments → Exec (World R D) Unit
  replicate a = do parcels ← on_disk (fetch_contents a); for_each parcels (copy_parcel a.url)
