-- ===== src/Upload/Integrity.antt =====
-- consolidateContent: every file of an accepted manifest has the content that its CID names.
use content_service.Prelude.{
  ◌≡◌, refl, sym, ap, ◌∙◌, String, Bool, true, false, List, [], ◌∷◌, Option, none, some, ◌==◌, ◌⊎◌,
  inl, inr, Map, lookup, All, eq_iff, Bool-cases,
}
use content_service.Prelude.Text.{has_suffix}
use content_service.Go.{ok, lift, GoError}
use content_service.Go.Inversion.{>>=-eq-ok, lift-eq-ok, on_error-raise-eq-ok}
use content_service.Go.Loops.{for_each_all}
use content_service.Auth.{Bytes}
use content_service.Upload.{FileMetadata, FileHeader}
use content_service.Upload.Service.{
  UploadService, check_cid_format, save_request_file, validate_cid, obtain_content,
  consolidate_file, consolidate_content, refuse_unless,
}

pub refuse_unless-eq-ok :
    {S : Type 0} (b : Bool) (e : GoError) (s : S) {t : S}
    → refuse_unless b e s ≡ (ok tt, t)
    → b ≡ true
refuse_unless-eq-ok true e s h = refl
refuse_unless-eq-ok false e s h = cc

All-trivial : (ms : List FileMetadata) → All (λ _. Unit {0}) ms
All-trivial [] = tt
All-trivial (m ∷ ms) = (tt, All-trivial ms)

module _ {R D : Type 0} (us : UploadService R D) where
  open us use {fs, ipfs_node}

  -- The bytes of a file that passed the check have the CID.
  validate_cid-content :
      (path cid : String) (s t : D)
      → validate_cid us path cid s ≡ (ok tt, t)
      → (b : Bytes) × (fs.file_at s path ≡ some b) × (ipfs_node.cid_of b ≡ cid)
  unfolding validate_cid
  validate_cid-content path cid s t h =
      let (r, u, e, k) = >>=-eq-ok _ _ s h in
      let e' = on_error-raise-eq-ok (fs.open_file path) _ s e in
      let (c, v, added, k') = >>=-eq-ok (ipfs_node.add r) _ u k in
      let (b, content, named) = ipfs_node.add_ok r u v c added in
      (
        b,
        fs.open_file_ok path s u r e' b content,
        sym named ∙ sym ((eq_iff cid c).0 (refuse_unless-eq-ok (cid == c) _ v k')),
      )

  -- A saved upload is at its path.
  save_request_file-content :
      (f : FileHeader) (root name : String) (s t : D)
      → save_request_file us f (fs.join root name) s ≡ (ok tt, t)
      → (b : Bytes) × (f.opened ≡ ok (ok b)) × (fs.file_at t (fs.join root name) ≡ some b)
  unfolding save_request_file
  save_request_file-content f root name s t h =
      let path = fs.join root name in
      let made = fs.join (fs.dir path) (fs.base path) in
      let (_, s1, e1, k1) = >>=-eq-ok (fs.mkdir_all (fs.dir path)) _ s h in
      let (_, s2, e2, k2) = >>=-eq-ok (fs.create made) _ s1 k1 in
      let (r, s3, e3, k3) = >>=-eq-ok (lift f.opened) _ s2 k2 in
      let (opened, same) = lift-eq-ok f.opened s2 e3 in
      let empty : fs.file_at s3 made ≡ some [] =
        ap (λ u. fs.file_at u made) (sym same) ∙ fs.create_ok made s1 s2 e2 in
      let (b, read, content) = fs.copy_ok made r s3 t empty k3 in
      (b, opened ∙ ap ok read, ap (fs.file_at t) (sym (fs.join-dir-base root name)) ∙ content)

  obtain_content-uploaded :
      (cid root name : String) (o : Option (List FileHeader)) (s t : D) (b : Bytes)
      → obtain_content us cid (fs.join root name) o s ≡ (ok tt, t)
      → fs.file_at t (fs.join root name) ≡ some b
      → (f : FileHeader) (rest : List FileHeader) → o ≡ some (f ∷ rest)
      → f.opened ≡ ok (ok b)
  obtain_content-uploaded cid root name none s t b h content f rest e = cc
  obtain_content-uploaded cid root name (some []) s t b h content f rest e = cc
  obtain_content-uploaded cid root name (some (g ∷ gs)) s t b h content f rest e =
      let (b', opened, saved) = save_request_file-content g root name s t h in
      let same : g ≡ f = cc in
      let bytes : b' ≡ b = cc in ap (λ x. x.opened) (sym same) ∙ opened ∙ ap (λ x. ok (ok x)) bytes

  -- A manifest entry is a directory, or it has a well-formed CID which is that of some bytes, and
  -- the request's file of that CID, if there is one, has just these bytes.
  pub record IsVerified (files : Map (List FileHeader)) (m : FileMetadata) : Type 0 where
    pub well_formed : check_cid_format us m.cid ≡ ok tt
    pub bytes : Bytes
    pub named : ipfs_node.cid_of bytes ≡ m.cid
    pub uploaded :
        (f : FileHeader) (rest : List FileHeader)
        → lookup m.cid files ≡ some (f ∷ rest)
        → f.opened ≡ ok (ok bytes)

  consolidate_file-IsVerified :
      (files : Map (List FileHeader)) (root : String) (m : FileMetadata) (s t : D)
      → consolidate_file us files root m s ≡ (ok tt, t)
      → (has_suffix m.name "/" ≡ true) ⊎ IsVerified files m
  unfolding consolidate_file
  consolidate_file-IsVerified files root m s t h = elim (Bool-cases (has_suffix m.name "/")) [
    | inl dir ↦ inl dir
    | inr file ↦
        let h' = rw file at h in
        let (_, u, e, k) = >>=-eq-ok (lift (check_cid_format us m.cid)) _ s h' in
        let (_, v, e', k') =
          >>=-eq-ok (obtain_content us m.cid (fs.join root m.name) (lookup m.cid files)) _ u k in
        let (b, content, named) = validate_cid-content (fs.join root m.name) m.cid v t k' in
        inr (record {
          well_formed = (lift-eq-ok (check_cid_format us m.cid) s e).0;
          bytes = b;
          named = named;
          uploaded =
              obtain_content-uploaded m.cid root m.name (lookup m.cid files) u v b e' content;
        })
  ]

  -- consolidateContent returns nil only if every entry of the manifest is a directory, by its name,
  -- or is verified: its CID is well-formed and is that of the bytes that were checked, and these are
  -- the bytes that the request uploads under this CID, if it does.
  pub consolidate_content-IsVerified :
      (files : Map (List FileHeader)) (manifest : List FileMetadata) (root : String) (s t : D)
      → consolidate_content us files manifest root s ≡ (ok tt, t)
      → All (λ m. (has_suffix m.name "/" ≡ true) ⊎ IsVerified files m) manifest
  unfolding consolidate_content
  consolidate_content-IsVerified files manifest root s t h =
      for_each_all (consolidate_file us files root) (λ _. Unit {0})
        (λ m _. (has_suffix m.name "/" ≡ true) ⊎ IsVerified files m)
        (λ m u v _ e. consolidate_file-IsVerified files root m u v e) (λ m n u v _ q _. q) manifest
        s (All-trivial manifest) h
