-- ===== src/Reachable.antt =====
-- The service as a state machine: each request that it answers is a step of the world, from the
-- routes of internal/routes/routes.go. A step is a whole request, so two requests that overlap are
-- not one of its runs.
use content_service.Prelude.{
  ◌≡◌, refl, sym, ap, ◌∙◌, String, Bool, true, List, Option, none, some, Map, ◌==◌, eq_iff,
  Bool-cases, inl, inr,
}
use content_service.Prelude.Int.{ℤ}
use content_service.Go.{GoError, ok, err}
use content_service.World.{World}
use content_service.Http.{Reply, json, status_ok}
use content_service.Redis.Client.{uploaded_elements_key}
use content_service.Redis.Keys.{is_parcel_key, starts_number, uploaded_key-first}
use content_service.Redis.Types.{IsTyped, key_shape, has_shape}
use content_service.Redis.Scenes.{Keyspace}
use content_service.Redis.Ownership.{IsConsistent, plain-ne-parcel}
use content_service.Upload.{UploadRequest}
use content_service.Upload.Request.{HttpRequest, UploadHandler, parse_request}
use content_service.Upload.Service.{UploadService, validate_upload, process_upload}
use content_service.Upload.Handler.{upload_content}
use content_service.Upload.Status.{
  upload_content-IsAccepted, upload_content-unparsed, upload_content-refused,
}
use content_service.Upload.Cids.{GivesCidsV0, KeySyntax, is_cid_v0, is_cid_v0-KeySyntax}
use content_service.Upload.Names.{NamesCids, process_upload-NamesCids}
use content_service.Upload.Scenes.{process_upload-IsConsistent}
use content_service.Upload.Types.{process_upload-IsTyped}
use content_service.Mappings.{GetMappingsParams, GetScenesParams, get_mappings, get_scenes}
use content_service.Mappings.Info.{ValidateParams, get_info, get_parcel_metadata_reply}
use content_service.Mappings.ReadOnly.{endpoints-read}
use content_service.Contents.{StorageKind, get_contents, check_content_status}
use content_service.Contents.Recording.{IsRecording, IsRecording-IsConsistent}
use content_service.Contents.Status.{check_content_status-IsRecorded}

recorded-NamesCids :
    {parses : String → Bool} {d e : Keyspace}
    → IsRecording d e
    → NamesCids parses d
    → NamesCids parses e
unfolding is_parcel_key starts_number
recorded-NamesCids h names p c parcel q =
    names p c parcel (sym (h.others p (plain-ne-parcel uploaded_elements_key p refl parcel)) ∙ q)

recorded-IsTyped :
    {parses : String → Bool} {d e : Keyspace}
    → KeySyntax parses
    → IsRecording d e
    → IsTyped parses d
    → IsTyped parses e
unfolding key_shape
recorded-IsTyped {parses} {d} {e} syntax h typed = record {
  shapes = λ j. elim (Bool-cases (uploaded_elements_key == j)) [
    | inl same ↦ rw (← (eq_iff uploaded_elements_key j).0 same) at_uploaded
    | inr other ↦ rw (h.others j other) (typed.shapes j)
  ];
}
  where
    at_uploaded :
        has_shape (key_shape parses uploaded_elements_key) (e uploaded_elements_key) ≡ true
    at_uploaded = elim (h.at_key) [
      | inl kept ↦ rw kept (typed.shapes uploaded_elements_key)
      | inr (cids, written) ↦ rw written (rw (syntax.no_uploaded_key, uploaded_key-first) refl)
    ]

module _ {R D : Type 0} (uh : UploadHandler) (us : UploadService R D) where
  open us use {storage, redis, fs, order}
  open redis use {value_at}

  -- A request that comes to its end, and the state that it leaves: any read, an upload that is answered
  -- 200 or refused before anything is stored, and a status check that is answered with its map. Uploads
  -- and status checks that stop on the way, at a failed write or by a panic, are no steps: what such
  -- a write leaves behind is not known, and half an upload need not keep the keyspace consistent.
  pub data Step (w w' : World R D) : Type 0 where
    uploaded :
        (now : ℤ) (r : HttpRequest) (reply : Reply (Unit {0}))
        → upload_content uh us now r w ≡ (ok reply, w')
        → reply.status ≡ status_ok
        → Step w w'
    unparsed :
        (now : ℤ) (r : HttpRequest) (e : GoError)
        → (parse_request uh now r w).0 ≡ err e
        → w' ≡ (upload_content uh us now r w).1
        → Step w w'
    refused :
        (now : ℤ) (r : HttpRequest) (request : UploadRequest) (e : GoError) (d : D)
        → (parse_request uh now r w).0 ≡ ok request
        → validate_upload us request w.disk ≡ (err e, d)
        → w' ≡ (upload_content uh us now r w).1
        → Step w w'
    mappings :
        (m : Option GetMappingsParams)
        → w'.redis ≡ (get_mappings redis order m w.redis).1
        → Step w w'
    scenes :
        (p : Option GetScenesParams) → w'.redis ≡ (get_scenes redis order p w.redis).1 → Step w w'
    info : (cids : String) → w'.redis ≡ (get_info redis order cids w.redis).1 → Step w w'
    metadata :
        (v : Option ValidateParams)
        → w'.redis ≡ (get_parcel_metadata_reply redis order v w.redis).1
        → Step w w'
    contents :
        (kind : StorageKind) (cid : String)
        → w' ≡ record w { disk = (get_contents redis storage fs kind cid w.disk).1 }
        → Step w w'
    status :
        (content : List String) (reply : Reply (Map Bool)) (resp : Map Bool)
        → check_content_status redis storage fs (some content) w ≡ (ok reply, w')
        → reply.body ≡ json resp
        → Step w w'

  pub data Reach (start : World R D) : World R D → Type 0 where
    here : Reach start start
    next : {w w' : World R D} → Reach start w → Step w w' → Reach start w'

  -- A property of the keyspace that uploads and status checks keep.
  module _ (P : Keyspace → Type 0)
      (on_upload : (r : UploadRequest) (w w' : World R D)
        → P (value_at w.redis)
        → process_upload us r w ≡ (ok tt, w')
        → P (value_at w'.redis))
      (on_record : (d e : Keyspace) → IsRecording d e → P d → P e) where
    read_keeps : {s t u : R} → P (value_at s) → t ≡ u → value_at u ≡ value_at s → P (value_at t)
    read_keeps k e same = rw (e, same) k

    Step_keeps : {w w' : World R D} → Step w w' → P (value_at w.redis) → P (value_at w'.redis)
    Step_keeps {w} {w'} (uploaded now r reply run answered) k =
        let (request, _, _, done) = upload_content-IsAccepted uh us now r w w' reply run answered in
        on_upload request w w' k done
    Step_keeps {w} {w'} (unparsed now r e h q) k =
        rw (q ∙ ap (λ x. x.1) (upload_content-unparsed uh us now r w e h)) k
    Step_keeps {w} {w'} (refused now r request e d parsed invalid q) k =
        rw (q ∙ ap (λ x. x.1) (upload_content-refused uh us now r request w e d parsed invalid)) k
    Step_keeps {w} {w'} (mappings m q) k =
        read_keeps k q (endpoints-read redis order m none "" none w.redis).0
    Step_keeps {w} {w'} (scenes p q) k =
        read_keeps k q (endpoints-read redis order none p "" none w.redis).1
    Step_keeps {w} {w'} (info cids q) k =
        read_keeps k q (endpoints-read redis order none none cids none w.redis).2
    Step_keeps {w} {w'} (metadata v q) k =
        read_keeps k q (endpoints-read redis order none none "" v w.redis).3
    Step_keeps {w} {w'} (contents kind cid q) k = rw q k
    Step_keeps {w} {w'} (status content reply resp run body) k =
        on_record (value_at w.redis) (value_at w'.redis)
          (check_content_status-IsRecorded redis storage fs content w w' reply resp run body).2 k

    Reach_keeps :
        {start w : World R D} → P (value_at start.redis) → Reach start w → P (value_at w.redis)
    Reach_keeps k here = k
    Reach_keeps k (next run step) = Step_keeps step (Reach_keeps k run)

  module _ (v0 : GivesCidsV0 us.ipfs_node) where
    -- If the IPFS node computes CIDs of version 0, then in every state that requests lead to, none of
    -- which stops on the way (the steps of Step), from one whose keyspace is consistent, as the empty
    -- one is, the keyspace is consistent: each parcel is on the list of one scene at most, the one that
    -- its own key names.
    pub Reach-IsConsistent :
        {start w : World R D}
        → IsConsistent (value_at start.redis)
        → Reach start w
        → IsConsistent (value_at w.redis)
    Reach-IsConsistent =
        Reach_keeps IsConsistent (process_upload-IsConsistent us v0)
          (λ d e h k. IsRecording-IsConsistent h k)

    -- If the IPFS node computes CIDs of version 0, then in every state that requests lead to, none of
    -- which stops on the way (the steps of Step), from one in which the parcels' keys name such CIDs,
    -- as in the empty keyspace, they name such CIDs.
    pub Reach-NamesCids :
        {start w : World R D}
        → NamesCids is_cid_v0 (value_at start.redis)
        → Reach start w
        → NamesCids is_cid_v0 (value_at w.redis)
    Reach-NamesCids =
        Reach_keeps (NamesCids is_cid_v0) (process_upload-NamesCids us v0)
          (λ d e h k. recorded-NamesCids h k)

  -- If the IPFS node computes CIDs of version 0, then in every state that requests lead to, none of
  -- which stops on the way (the steps of Step), from a typed keyspace, as the empty one is, the
  -- keyspace is typed: each key that holds a value holds one of the type that key_shape gives it, such
  -- as a string under a parcel id and a list under a CID.
  pub Reach-IsTyped :
      (v0 : GivesCidsV0 us.ipfs_node)
      → {start w : World R D} → IsTyped is_cid_v0 (value_at start.redis)
      → Reach start w
      → IsTyped is_cid_v0 (value_at w.redis)
  Reach-IsTyped v0 =
      Reach_keeps (IsTyped is_cid_v0) (process_upload-IsTyped us v0)
        (λ d e h k. recorded-IsTyped is_cid_v0-KeySyntax h k)
