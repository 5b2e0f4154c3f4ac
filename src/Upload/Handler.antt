-- ===== src/Upload/Handler.antt =====
-- internal/handlers/upload_handler.go: UploadContent, which parses the request, processes it and
-- maps the outcome to an HTTP status.
use content_service.Prelude.Int.{ℤ}
use content_service.Go.{
  GoError, invalid_argument, unauthorized, Result, ok, err, panicked, Exec, pure, lift, inspect,
}
use content_service.World.{World}
use content_service.Http.{
  Reply, empty, fail_with, status_ok, status_bad_request, status_unauthorized,
  status_internal_server_error,
}
use content_service.Upload.{UploadRequest}
use content_service.Upload.Request.{HttpRequest, UploadHandler, parse_request}
use content_service.Upload.Service.{UploadService, process_upload}

abbrev pub parse_failure : GoError → Reply (Unit {0})
parse_failure (invalid_argument message) = fail_with status_bad_request message
parse_failure e = fail_with status_internal_server_error "internal error, try again later"

abbrev pub process_failure : GoError → Reply (Unit {0})
process_failure (invalid_argument message) = fail_with status_bad_request message
process_failure (unauthorized message) = fail_with status_unauthorized message
process_failure e = fail_with status_internal_server_error "internal error, try again later"

module _ {R D : Type 0} (uh : UploadHandler) (us : UploadService R D) where
  abbrev pub processed : Result (Unit {0}) → Exec (World R D) (Reply (Unit {0}))
  processed (ok _) = pure (record { status = status_ok; body = empty })
  processed (err e) = pure (process_failure e)
  processed panicked = lift panicked

  abbrev pub parsed : Result UploadRequest → Exec (World R D) (Reply (Unit {0}))
  parsed (ok request) = inspect (process_upload us request) processed
  parsed (err e) = pure (parse_failure e)
  parsed panicked = lift panicked

  -- `now` is what time.Now gives.
  unfoldable pub upload_content : ℤ → HttpRequest → Exec (World R D) (Reply (Unit {0}))
  upload_content now r = inspect (parse_request uh now r) parsed
