-- ===== src/Upload/Status.antt =====
-- UploadContent: what a reply with status 200 means, and what a request that is not parsed changes.
use content_service.Prelude.{◌≡◌, refl, ap, arith}
use content_service.Prelude.Int.{ℤ}
use content_service.Go.{
  GoError, invalid_argument, required_value, unexpected, unauthorized, not_found, internal, plain,
  Result, ok, err, panicked, inspect,
}
use content_service.Go.Inversion.{pure-eq-ok, inspect-eq-ok}
use content_service.Prelude.Maps.{lookup}
use content_service.Prelude.{none, false}
use content_service.Go.{◌>>=◌, on_error}
use content_service.Http.{error_body, fail_with, status_internal_server_error}
use content_service.Upload.Request.{Form, parse_metadata, get_metadata}
use content_service.World.{World}
use content_service.Http.{Reply, status_ok}
use content_service.Upload.{UploadRequest, log_upload_request}
use content_service.Upload.Request.{HttpRequest, UploadHandler, parse_request}
use content_service.Upload.Parsing.{IsParsed}
use content_service.Upload.Service.{
  UploadService, validate_signature, validate_key_access, validate_upload, process_upload,
}
use content_service.Auth.{user_can_modify_parcels}
use content_service.Upload.Validation.{
  IsAccepted, process_upload-IsAccepted, process_upload-refused,
}
use content_service.Upload.Handler.{
  parse_failure, process_failure, processed, parsed, upload_content,
}
use content_service.Upload.Parsed.{parse_request-IsParsed, parse_request-Unchanged}

parse_failure-status : (e : GoError) → (parse_failure e).status ≡ status_ok → ⊥
parse_failure-status (invalid_argument m) h = absurd (omega arith)
parse_failure-status (required_value m) h = absurd (omega arith)
parse_failure-status (unexpected m e) h = absurd (omega arith)
parse_failure-status (unauthorized m) h = absurd (omega arith)
parse_failure-status (not_found m) h = absurd (omega arith)
parse_failure-status (internal m) h = absurd (omega arith)
parse_failure-status (plain m) h = absurd (omega arith)

process_failure-status : (e : GoError) → (process_failure e).status ≡ status_ok → ⊥
process_failure-status (invalid_argument m) h = absurd (omega arith)
process_failure-status (required_value m) h = absurd (omega arith)
process_failure-status (unexpected m e) h = absurd (omega arith)
process_failure-status (unauthorized m) h = absurd (omega arith)
process_failure-status (not_found m) h = absurd (omega arith)
process_failure-status (internal m) h = absurd (omega arith)
process_failure-status (plain m) h = absurd (omega arith)

-- The answers to the errors of parseRequest, and to those of ProcessUpload, as numbers.
abbrev pub parse_answer : GoError → Reply (Unit {0})
parse_answer (invalid_argument m) = record { status = 400; body = error_body m }
parse_answer _ = record { status = 500; body = error_body "internal error, try again later" }

abbrev pub process_answer : GoError → Reply (Unit {0})
process_answer (invalid_argument m) = record { status = 400; body = error_body m }
process_answer (unauthorized m) = record { status = 401; body = error_body m }
process_answer _ = record { status = 500; body = error_body "internal error, try again later" }

parse_failure-answer : (e : GoError) → parse_failure e ≡ parse_answer e
parse_failure-answer (invalid_argument m) = refl
parse_failure-answer (required_value m) = refl
parse_failure-answer (unexpected m e) = refl
parse_failure-answer (unauthorized m) = refl
parse_failure-answer (not_found m) = refl
parse_failure-answer (internal m) = refl
parse_failure-answer (plain m) = refl

process_failure-answer : (e : GoError) → process_failure e ≡ process_answer e
process_failure-answer (invalid_argument m) = refl
process_failure-answer (required_value m) = refl
process_failure-answer (unexpected m e) = refl
process_failure-answer (unauthorized m) = refl
process_failure-answer (not_found m) = refl
process_failure-answer (internal m) = refl
process_failure-answer (plain m) = refl

module _ {R D : Type 0} (uh : UploadHandler) (us : UploadService R D) where
  processed-ok :
      (x : Result (Unit {0})) (u t : World R D) (reply : Reply (Unit {0}))
      → processed uh us x u ≡ (ok reply, t)
      → reply.status ≡ status_ok
      → (x ≡ ok tt) × (u ≡ t)
  processed-ok (ok y) u t reply h q = (refl, ap (λ p. p.1) h)
  processed-ok (err e) u t reply h q =
      absurd (process_failure-status e (rw (← (pure-eq-ok (process_failure e) reply u t h).0) at q))
  processed-ok panicked u t reply h q = cc

  parsed-ok :
      (x : Result UploadRequest) (u t : World R D) (reply : Reply (Unit {0}))
      → parsed uh us x u ≡ (ok reply, t)
      → reply.status ≡ status_ok
      → (r : UploadRequest) × (x ≡ ok r) × (process_upload us r u ≡ (ok tt, t))
  parsed-ok (ok r) u t reply h q =
      let k = inspect-eq-ok (process_upload us r) (processed uh us) u h in
      let (e, same) =
        processed-ok (process_upload us r u).0 (process_upload us r u).1 t reply k q in
      (r, refl, λ i. (e i, same i))
  parsed-ok (err e) u t reply h q =
      absurd (parse_failure-status e (rw (← (pure-eq-ok (parse_failure e) reply u t h).0) at q))
  parsed-ok panicked u t reply h q = cc

  -- UploadContent answers with status 200 only if the posted form has a metadata field, a field named
  -- by the root CID and a file scene.json that decode to the metadata, the manifest and the scene,
  -- these are valid, in force, of allowed content types and within the limits, and ProcessUpload
  -- accepted this upload and returned nil in the state in which the request came.
  pub upload_content-IsAccepted :
      (now : ℤ) (r : HttpRequest) (w w' : World R D) (reply : Reply (Unit {0}))
      → upload_content uh us now r w ≡ (ok reply, w')
      → reply.status ≡ status_ok
      → (request : UploadRequest) × IsParsed uh now r request
        × IsAccepted us request
        × (process_upload us request w ≡ (ok tt, w'))
  unfolding upload_content
  upload_content-IsAccepted now r w w' reply h q =
      let start = parse_request uh now r w in
      let k = inspect-eq-ok (parse_request uh now r) (parsed uh us) w h in
      let same = (parse_request-Unchanged uh {S = World R D} now r).at w in
      let (request, e, done) = parsed-ok start.0 start.1 w' reply k q in
      let done' = rw same at done in
      (
        request,
        parse_request-IsParsed uh now r w start.1 request (λ i. (e i, start.1)),
        process_upload-IsAccepted us request w w' done',
        done',
      )

  -- A request that parseRequest refuses changes nothing and is answered 400 with the error's text
  -- for an InvalidArgument, and 500 for every other error.
  pub upload_content-unparsed :
      (now : ℤ) (r : HttpRequest) (w : World R D) (e : GoError)
      → (parse_request uh now r w).0 ≡ err e
      → upload_content uh us now r w ≡ (ok (parse_answer e), w)
  unfolding upload_content inspect
  upload_content-unparsed now r w e h =
      rw (h, (parse_request-Unchanged uh {S = World R D} now r).at w)
        (rw (parse_failure-answer e) refl)

  -- A request whose form has no metadata part is answered with status 500 and changes nothing.
  pub upload_content-without_metadata :
      (now : ℤ) (r : HttpRequest) (form : Form) (w : World R D)
      → r.form ≡ ok form
      → lookup "metadata" form.values ≡ none
      → upload_content uh us now r w
        ≡ (ok (fail_with status_internal_server_error "internal error, try again later"), w)
  unfolding upload_content inspect parse_request parse_metadata get_metadata ◌>>=◌ on_error
  upload_content-without_metadata now r form w e missing = rw (e, missing) refl

  -- A request that parseRequest accepts and a check of ProcessUpload refuses changes nothing in
  -- Redis, and is answered 400 with the error's text for an InvalidArgument, 401 with it for an
  -- Unauthorized, and 500 for every other error.
  pub upload_content-refused :
      (now : ℤ) (r : HttpRequest) (request : UploadRequest) (w : World R D) (e : GoError) (d : D)
      → (parse_request uh now r w).0 ≡ ok request
      → validate_upload us request w.disk ≡ (err e, d)
      → upload_content uh us now r w ≡ (ok (process_answer e), record { redis = w.redis; disk = d })
  unfolding upload_content inspect
  upload_content-refused now r request w e d h invalid =
      rw (h, (parse_request-Unchanged uh {S = World R D} now r).at w)
        (rw (process_upload-refused us request w e d invalid) (rw (process_failure-answer e) refl))

  denied_upload :
      (request : UploadRequest) (s d e : D)
      → log_upload_request request.uploaded_files ≡ ok tt
      → validate_signature us request.metadata s ≡ (ok tt, d)
      → user_can_modify_parcels us.land request.metadata.pub_key request.scene.scene.parcels d
        ≡ (ok false, e)
      → validate_upload us request s
        ≡ (err (unauthorized "address is not authorized to modify given parcels"), e)
  unfolding validate_upload validate_key_access ◌>>=◌ inspect
  denied_upload request s d e logged signed denied = rw (logged, signed, denied) refl

  -- An upload that parseRequest accepts, whose parts have a file each and whose signature is valid, but
  -- for which the check of the key's access to its parcels says no, is answered 401 with the reason
  -- and changes nothing in Redis.
  pub upload_content-unauthorized :
      (now : ℤ) (r : HttpRequest) (request : UploadRequest) (w : World R D) (d e : D)
      → (parse_request uh now r w).0 ≡ ok request
      → log_upload_request request.uploaded_files ≡ ok tt
      → validate_signature us request.metadata w.disk ≡ (ok tt, d)
      → user_can_modify_parcels us.land request.metadata.pub_key request.scene.scene.parcels d
        ≡ (ok false, e)
      → upload_content uh us now r w ≡ (
        ok (record {
          status = 401;
          body = error_body "address is not authorized to modify given parcels";
        }),
        record { redis = w.redis; disk = e },
      )
  upload_content-unauthorized now r request w d e parsed logged signed denied =
      upload_content-refused now r request w
        (unauthorized "address is not authorized to modify given parcels") e parsed
        (denied_upload request w.disk d e logged signed denied)
