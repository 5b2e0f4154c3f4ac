-- ===== src/Upload/Validation.antt =====
-- The checks of ProcessUpload: what an accepted upload has passed, and that a refused one has not
-- reached Redis.
use Prim.Native.String.{len}
use content_service.Prelude.{
  ◌≤◌, ◌<◌, ◌≡◌, ◌≢◌, refl, sym, ap, ◌∙◌, String, Bool, true, false, List, [], ◌==◌, ◌⊎◌, inl, inr,
  All, eq_iff, Bool-cases, ltb, arith,
}
use content_service.Prelude.Int.{ℤ, ◌≤ℤ◌, ltb_ℤ}
use content_service.Prelude.Text.{has_suffix}
use content_service.Go.{
  GoError, Result, ok, err, panicked, lift, ◌>>=◌, inspect, attend, unexpected,
}
use content_service.Go.Inversion.{>>=-eq-ok, lift-eq-ok, on_error-raise-eq-ok}
use content_service.World.{World, on_disk, on_disk-eq-ok}
use content_service.Auth.{is_signature_valid, user_can_modify_parcels}
use content_service.Auth.Signatures.{IsSignedBy, is_signature_valid_iff}
use content_service.Auth.Access.{IsGranted, user_can_modify_parcels-IsGranted}
use content_service.Rpc.{validate_dapper_signature}
use content_service.Upload.{Metadata, UploadRequest, log_upload_request}
use content_service.Upload.Integrity.{
  IsVerified, consolidate_content-IsVerified, refuse_unless-eq-ok,
}
use content_service.Upload.Service.{
  UploadService, signed_message, validate_signature, validate_key_access, key_access_result,
  estimate_request_size, max_request_size, validate_request_size, check_cid_format,
  consolidate_content, calculate_root_cid, check_root, with_cleanup, validate_content_cid,
  validate_upload, process_upload,
}

module _ {R D : Type 0} (us : UploadService R D) where
  open us use {crypto, land, rpc, fs, workdir, ipfs_node}

  -- A short signature is the key's over the root CID and the timestamp; a long one was confirmed
  -- by the contract at the key's address, over the value and the timestamp.
  pub data IsSigned (m : Metadata) : Type 0 where
    by_key :
        len m.signature ≤ 150
        → IsSignedBy crypto (signed_message m.root_cid m.timestamp) m.signature m.pub_key
        → IsSigned m
    by_contract :
        150 < len m.signature
        → (s t : D)
        → validate_dapper_signature rpc m.pub_key (signed_message m.value m.timestamp) m.signature s
          ≡ (ok true, t)
        → IsSigned m

  validate_signature-IsSigned :
      (m : Metadata) (s t : D) → validate_signature us m s ≡ (ok tt, t) → IsSigned m
  unfolding validate_signature
  validate_signature-IsSigned m s t h = elim (Bool-cases (ltb 150 (len m.signature))) [
    | inl long ↦
        let h' = rw long at h in
        let (valid, u, e, k) =
          >>=-eq-ok
            (validate_dapper_signature rpc m.pub_key (signed_message m.value m.timestamp)
              m.signature)
            _ s h' in
        by_contract (ground arith) s u (rw (refuse_unless-eq-ok valid _ u k) at e)
    | inr short ↦
        let h' = rw short at h in
        let (valid, u, e, k) =
          >>=-eq-ok
            (lift (
              is_signature_valid crypto (signed_message m.root_cid m.timestamp) m.signature
                m.pub_key))
            _ s h' in
        by_key (ground arith) (
          (is_signature_valid_iff crypto _ _ _).0
            (rw (refuse_unless-eq-ok valid _ u k) at (lift-eq-ok _ s e).0))
  ]

  key_access_result-eq-ok :
      (key : String) (x : Result Bool) (s t : D)
      → key_access_result key x s ≡ (ok tt, t)
      → x ≡ ok true
  key_access_result-eq-ok key (ok true) s t h = refl
  key_access_result-eq-ok key (ok false) s t h = cc
  key_access_result-eq-ok key (err e) s t h = cc
  key_access_result-eq-ok key panicked s t h = cc

  attend-key_access :
      (key : String) (x : Result Bool) (s t : D)
      → attend x (key_access_result key) s ≡ (ok tt, t)
      → x ≡ ok true
  attend-key_access key (ok b) s t h = key_access_result-eq-ok key (ok b) s t h
  attend-key_access key (err e) s t h = cc
  attend-key_access key panicked s t h = cc

  validate_key_access-IsGranted :
      (key : String) (ps : List String) (s t : D)
      → validate_key_access us key ps s ≡ (ok tt, t)
      → (ps ≢ []) × All (IsGranted land key) ps
  unfolding validate_key_access inspect
  validate_key_access-IsGranted key ps s t h =
      let e =
        attend-key_access key (user_can_modify_parcels land key ps s).0
          (user_can_modify_parcels land key ps s).1 t h in
      user_can_modify_parcels-IsGranted land key ps s (user_can_modify_parcels land key ps s).1
        (λ i. (e i, (user_can_modify_parcels land key ps s).1))

  -- The estimated size, when it was estimated, was within the limit for the scene's parcels.
  pub record IsWithinLimit (r : UploadRequest) : Type 0 where
    pub size : ℤ
    pub before : D
    pub after : D
    pub estimated : estimate_request_size us r before ≡ (ok size, after)
    pub within : size ≤ℤ max_request_size us r

  validate_request_size-IsWithinLimit :
      (r : UploadRequest) (s t : D) → validate_request_size us r s ≡ (ok tt, t) → IsWithinLimit r
  unfolding validate_request_size
  validate_request_size-IsWithinLimit r s t h =
      let (size, u, e, k) = >>=-eq-ok (estimate_request_size us r) _ s h in
      elim (Bool-cases (ltb_ℤ (max_request_size us r) size)) [
        | inl over ↦ let k' = rw over at k in cc
        | inr fits ↦ record {
          size = size;
          before = s;
          after = u;
          estimated = e;
          within = ground arith;
        }
      ]

  -- The content of the request was put into the directory of the root CID and checked, and from the
  -- directory in the state that this left the IPFS node computed the root CID.
  pub record HasContent (r : UploadRequest) : Type 0 where
    pub well_formed : check_cid_format us r.metadata.root_cid ≡ ok tt
    pub files :
        All (λ m. (has_suffix m.name "/" ≡ true) ⊎ IsVerified us r.uploaded_files m) r.manifest
    pub start : D
    pub before : D
    pub after : D
    pub consolidated :
        consolidate_content us r.uploaded_files r.manifest
          (fs.join workdir r.metadata.root_cid)
          start
        ≡ (ok tt, before)
    pub root :
        ipfs_node.add_tree (fs.join workdir r.metadata.root_cid) before
        ≡ (ok r.metadata.root_cid, after)

  validate_content_cid-HasContent :
      (r : UploadRequest) (s t : D)
      → validate_content_cid us r.uploaded_files r.manifest r.metadata.root_cid s ≡ (ok tt, t)
      → HasContent r
  unfolding validate_content_cid with_cleanup check_root calculate_root_cid
  validate_content_cid-HasContent r s t h =
      let root = r.metadata.root_cid in
      let (_, u, e, k) = >>=-eq-ok (lift (check_cid_format us root)) _ s h in
      let body = check_root us r.uploaded_files r.manifest root in
      let checked : body u ≡ (ok tt, (body u).1) = λ i. ((k i).0, (body u).1) in
      let (_, v, e', k') =
        >>=-eq-ok (consolidate_content us r.uploaded_files r.manifest (fs.join workdir root)) _ u
          checked in
      let (actual, w, e'', k'') = >>=-eq-ok _ _ v k' in
      let same = (eq_iff root actual).0 (refuse_unless-eq-ok (root == actual) _ w k'') in
      record {
        well_formed = (lift-eq-ok (check_cid_format us root) s e).0;
        files =
            consolidate_content-IsVerified us r.uploaded_files r.manifest (fs.join workdir root) u v
              e';
        start = u;
        before = v;
        after = w;
        consolidated = e';
        root =
            on_error-raise-eq-ok (ipfs_node.add_tree (fs.join workdir root)) (unexpected "") v e''
            ∙ ap (λ x. (ok x, w)) (sym same);
      }

  -- What an upload has passed when ProcessUpload goes on to store it.
  pub record IsAccepted (r : UploadRequest) : Type 0 where
    pub signed : IsSigned r.metadata
    pub has_parcels : r.scene.scene.parcels ≢ []
    pub granted : All (IsGranted land r.metadata.pub_key) r.scene.scene.parcels
    pub size : IsWithinLimit r
    pub content : HasContent r

  pub validate_upload-IsAccepted :
      (r : UploadRequest) (s t : D) → validate_upload us r s ≡ (ok tt, t) → IsAccepted r
  unfolding validate_upload
  validate_upload-IsAccepted r s t h =
      let (_, s1, e1, k1) = >>=-eq-ok (lift (log_upload_request r.uploaded_files)) _ s h in
      let (_, s2, e2, k2) = >>=-eq-ok (validate_signature us r.metadata) _ s1 k1 in
      let (_, s3, e3, k3) =
        >>=-eq-ok (validate_key_access us r.metadata.pub_key r.scene.scene.parcels) _ s2 k2 in
      let (_, s4, e4, k4) = >>=-eq-ok (validate_request_size us r) _ s3 k3 in
      let (parcels, granted) =
        validate_key_access-IsGranted r.metadata.pub_key r.scene.scene.parcels s2 s3 e3 in
      record {
        signed = validate_signature-IsSigned r.metadata s1 s2 e2;
        has_parcels = parcels;
        granted = granted;
        size = validate_request_size-IsWithinLimit r s3 s4 e4;
        content = validate_content_cid-HasContent r s4 t k4;
      }

  -- ProcessUpload returns nil only for an upload that is accepted: its signature is the key's or was
  -- confirmed by the key's contract, the land API granted the key access to each of its parcels, of
  -- which there is one at least, its size is within the limit, every file of the manifest has the
  -- content that its CID names, and the root CID is the one that the IPFS node computed from the
  -- directory that the consolidation of these files left.
  pub process_upload-IsAccepted :
      (r : UploadRequest) (w w' : World R D) → process_upload us r w ≡ (ok tt, w') → IsAccepted r
  unfolding process_upload
  process_upload-IsAccepted r w w' h =
      let (_, v, e, k) = >>=-eq-ok (on_disk (validate_upload us r)) _ w h in
      validate_upload-IsAccepted r w.disk v.disk (on_disk-eq-ok (validate_upload us r) w v tt e).0

  -- An upload that fails a check is answered with the error of that check, and nothing that the
  -- service keeps in Redis changes.
  pub process_upload-refused :
      (r : UploadRequest) (w : World R D) (x : GoError) (d : D)
      → validate_upload us r w.disk ≡ (err x, d)
      → process_upload us r w ≡ (err x, record { redis = w.redis; disk = d })
  unfolding process_upload on_disk ◌>>=◌
  process_upload-refused r w x d h = rw h refl
