-- ===== src/Contents.antt =====
-- internal/handlers/contents_handler.go: the redirect to a file, and the status of contents.
pub mod Recording
pub mod Status
use content_service.Prelude.{
  ℕ, String, Bool, true, false, List, [], ◌∷◌, Option, none, some, if◌then◌else◌, Map, insert,
}
use content_service.Go.{
  GoError, not_found, plain, Result, ok, err, panicked, Exec, pure, raise, lift, ◌>>=◌, ◌>>◌,
  on_error, inspect,
}
use content_service.World.{World, on_disk, on_redis}
use content_service.Http.{
  Reply, Body, empty, file, redirect, fail_with, reply_json, status_ok, status_moved_permanently,
  status_bad_request, status_not_found, status_internal_server_error,
}
use content_service.Redis.{RedisServer}
use content_service.Redis.Client.{add_cid, is_content_member}
use content_service.Storage.{FileSystem, Storage}

-- The dynamic type of a storage: *S3, *Local, or another one.
pub data StorageKind : Type 0 where
  s3_kind : StorageKind
  local_kind : StorageKind
  other_kind : StorageKind

module _ {R D : Type 0} (srv : RedisServer R) (sto : Storage D) (fs : FileSystem D) where
  abbrev local_reply : String → Result (Option ℕ) → Exec D (Reply (Unit {0}))
  local_reply path (ok (some size)) = pure (record { status = status_ok; body = file path })
  local_reply path (ok none) = pure (record { status = status_not_found; body = empty })
  local_reply path (err e) = pure (record { status = status_not_found; body = empty })
  local_reply path panicked = lift panicked

  unfoldable pub get_contents : StorageKind → String → Exec D (Reply (Unit {0}))
  get_contents s3_kind cid =
      pure (record { status = status_moved_permanently; body = redirect (sto.get_file cid) })
  get_contents local_kind cid =
      inspect (fs.stat_size (sto.get_file cid)) (local_reply (sto.get_file cid))
  get_contents other_kind cid = pure (fail_with status_internal_server_error "invalid storage")

  abbrev in_storage : String → Result ℕ → Exec (World R D) Bool
  in_storage cid (ok size) = do
    on_error (on_redis (add_cid srv cid)) λ e. raise (plain "unexpected error")
    pure true
  in_storage cid (err (not_found cause)) = pure false
  in_storage cid (err e) = raise e
  in_storage cid panicked = lift panicked

  -- A file that the storage has is added to the set of uploaded CIDs.
  unfoldable pub check_content_in_storage : String → Exec (World R D) Bool
  check_content_in_storage cid = inspect (on_disk (sto.file_size cid)) (in_storage cid)

  -- One round of the loop of CheckContentStatus.
  unfoldable pub is_uploaded : String → Exec (World R D) Bool
  is_uploaded cid = do
    uploaded ← on_redis (is_content_member srv cid)
    if uploaded then pure true else check_content_in_storage cid

  unfoldable pub statuses_of : Map Bool → List String → Exec (World R D) (Map Bool)
  statuses_of resp [] = pure resp
  statuses_of resp (cid ∷ cids) = do
    uploaded ← is_uploaded cid
    statuses_of (insert cid uploaded resp) cids

  abbrev statuses_reply : Result (Map Bool) → Exec (World R D) (Reply (Map Bool))
  statuses_reply (ok resp) = pure (reply_json resp)
  statuses_reply (err e) = pure (fail_with status_internal_server_error "try again later")
  statuses_reply panicked = lift panicked

  -- `none` is a body that does not bind.
  unfoldable pub check_content_status : Option (List String) → Exec (World R D) (Reply (Map Bool))
  check_content_status none = pure (fail_with status_bad_request "invalid request")
  check_content_status (some content) = inspect (statuses_of [] content) statuses_reply
