-- ===== src/Http.antt =====
-- What a gin handler answers: a status of net/http and a body. A handler that panics gives no
-- reply of its own; gin.Recovery answers for it.
use content_service.Prelude.{ℕ, String}

-- `error_body m` is gin.H{"error": m}, `json` a value that is encoded, `redirect` a location, `file`
-- the file at a path, `empty` a reply of which only the status is set.
pub data Body (A : Type 0) : Type 0 where
  error_body : String → Body A
  json : A → Body A
  redirect : String → Body A
  file : String → Body A
  empty : Body A

pub record Reply (A : Type 0) : Type 0 where
  pub status : ℕ
  pub body : Body A

abbrev pub status_ok : ℕ
status_ok = 200

abbrev pub status_moved_permanently : ℕ
status_moved_permanently = 301

abbrev pub status_bad_request : ℕ
status_bad_request = 400

abbrev pub status_unauthorized : ℕ
status_unauthorized = 401

abbrev pub status_not_found : ℕ
status_not_found = 404

abbrev pub status_internal_server_error : ℕ
status_internal_server_error = 500

abbrev pub status_service_unavailable : ℕ
status_service_unavailable = 503

module _ {A : Type 0} where
  abbrev pub fail_with : ℕ → String → Reply A
  fail_with status message = record { status = status; body = error_body message }

  abbrev pub reply_json : A → Reply A
  reply_json a = record { status = status_ok; body = json a }
