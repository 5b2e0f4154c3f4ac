-- ===== src/Upload/Parsing.antt =====
-- parseRequest: what the requests that it accepts satisfy, and that it changes no state.
use content_service.Prelude.{
  ◌≡◌, refl, sym, ap, ◌∙◌, String, Bool, true, false, List, [], ◌∷◌, Option, none, some, ltb, ◌==◌,
  Map, lookup, length, All, Option-cases, Bool-cases, inl, inr,
}
use content_service.Prelude.Int.{ℤ, pos, ltb_ℤ}
use content_service.Prelude.Text.{trim_prefix}
use content_service.Go.{Result, ok, err, panicked, pure, lift}
use content_service.Go.Inversion.{>>=-eq-ok, pure-eq-ok, lift-eq-ok}
use content_service.Storage.{Reader}
use content_service.Upload.{FileMetadata, Metadata, SceneFile, FileHeader, UploadRequest}
use content_service.Upload.Sent.{IsSentMetadata, IsSentManifest, IsSentScene}
use content_service.Upload.Request.{
  Codec, Form, HttpRequest, UploadHandler, has_request_expired, first_value, is_allowed,
  validate_headers, validate_content_types, parse_scene_metadata, get_metadata,
  parse_scene_json_file, allowed_header, and_then, entry_result, checked_scene, opened_scene,
  get_scene, validate_entries, parse_files_metadata, get_manifest_content, checked_manifest,
  max_elements,
}

-- The request `r` is read from the parts of the posted one, which are valid, in force, of allowed
-- content types and within the limits.
pub record IsParsed (uh : UploadHandler) (now : ℤ) (posted : HttpRequest) (r : UploadRequest)
    : Type 0 where
  pub form : Form
  pub posted_form : posted.form ≡ ok form
  pub metadata_sent : IsSentMetadata uh.codec form r.metadata
  pub manifest_sent : IsSentManifest uh.codec form r.metadata.root_cid r.manifest
  pub scene_sent : IsSentScene uh.codec (uh.order.range (List FileHeader) form.files) r.scene
  pub files_sent : r.uploaded_files ≡ form.files
  pub origin_sent : r.origin ≡ posted.origin
  pub root : r.metadata.root_cid ≡ trim_prefix r.metadata.value "/ipfs/"
  pub metadata_valid : uh.codec.valid_metadata r.metadata ≡ true
  pub in_force : has_request_expired now r.metadata uh.time_to_live ≡ false
  pub entries_valid : All (λ m. uh.codec.entry_error m ≡ none) r.manifest
  pub types_allowed :
      All
        (λ f. All (λ h. uh.codec.matches uh.filter_pattern h.content_type ≡ ok true) f.1)
        (uh.order.range (List FileHeader) r.uploaded_files)
  pub files_in_manifest : ltb (length r.manifest) (length r.uploaded_files) ≡ false
  pub scene_valid : uh.codec.valid_scene r.scene ≡ true
  pub within_limit : ltb_ℤ (max_elements r.scene uh.assets_limit) (pos (length r.manifest)) ≡ false
  pub request_valid : uh.codec.request_error r ≡ none

module _ (codec : Codec) where
  parse_scene_metadata-valid :
      (text : String) (m : Metadata)
      → parse_scene_metadata codec text ≡ ok m
      → (m.root_cid ≡ trim_prefix m.value "/ipfs/") × (codec.valid_metadata m ≡ true)
  unfolding parse_scene_metadata
  parse_scene_metadata-valid text m h = elim (Option-cases (codec.decode_metadata text)) [
    | inl e ↦ let h' = rw e at h in cc
    | inr (d, e) ↦
        let h' = rw e at h in
        let named = record d { root_cid = trim_prefix d.value "/ipfs/" } in
        elim (Bool-cases (codec.valid_metadata named)) [
          | inl valid ↦
              let same : named ≡ m = let h2 = rw valid at h' in cc in
              (
                ap (λ (x : Metadata). x.root_cid) (sym same)
                    ∙ ap (λ (x : Metadata). trim_prefix x.value "/ipfs/") same,
                ap codec.valid_metadata (sym same) ∙ valid,
              )
          | inr bad ↦ let h2 = rw bad at h' in cc
        ]
  ]

  pub get_metadata-valid :
      {S : Type 0} (form : Form) (s t : S) (m : Metadata)
      → get_metadata codec form s ≡ (ok m, t)
      → (m.root_cid ≡ trim_prefix m.value "/ipfs/") × (codec.valid_metadata m ≡ true)
  unfolding get_metadata
  get_metadata-valid form s t m h = elim (Option-cases (lookup "metadata" form.values)) [
    | inl e ↦ let h' = rw e at h in cc
    | inr (vs, e) ↦
        let h' = rw e at h in
        let (text, u, _, k) =
          >>=-eq-ok (lift (first_value vs)) (λ text. lift (parse_scene_metadata codec text)) s h' in
        parse_scene_metadata-valid text m (lift-eq-ok (parse_scene_metadata codec text) u k).0
  ]

  allowed_header-eq-ok :
      (f : FileHeader) (r : Result Bool) (rest : Result Unit)
      → allowed_header codec f r rest ≡ ok tt
      → (r ≡ ok true) × (rest ≡ ok tt)
  allowed_header-eq-ok f (ok true) rest h = (refl, h)
  allowed_header-eq-ok f (ok false) rest h = cc
  allowed_header-eq-ok f (err e) rest h = cc
  allowed_header-eq-ok f panicked rest h = cc

  and_then-eq-ok :
      (r rest : Result Unit) → and_then codec r rest ≡ ok tt → (r ≡ ok tt) × (rest ≡ ok tt)
  and_then-eq-ok (ok x) rest h = (refl, h)
  and_then-eq-ok (err e) rest h = cc
  and_then-eq-ok panicked rest h = cc

  entry_result-eq-ok :
      (o : Option String) (rest : Result Unit)
      → entry_result codec o rest ≡ ok tt
      → (o ≡ none) × (rest ≡ ok tt)
  entry_result-eq-ok none rest h = (refl, h)
  entry_result-eq-ok (some x) rest h = cc

  validate_headers-allowed :
      (pattern : String) (fs : List FileHeader)
      → validate_headers codec pattern fs ≡ ok tt
      → All (λ f. codec.matches pattern f.content_type ≡ ok true) fs
  unfolding validate_headers is_allowed
  validate_headers-allowed pattern [] h = tt
  validate_headers-allowed pattern (f ∷ fs) h =
      let (e, k) = allowed_header-eq-ok f (codec.matches pattern f.content_type) _ h in
      (e, validate_headers-allowed pattern fs k)

  pub validate_content_types-allowed :
      (pattern : String) (files : Map (List FileHeader))
      → validate_content_types codec pattern files ≡ ok tt
      → All (λ f. All (λ h. codec.matches pattern h.content_type ≡ ok true) f.1) files
  unfolding validate_content_types
  validate_content_types-allowed pattern [] h = tt
  validate_content_types-allowed pattern ((cid, hs) ∷ files) h =
      let (e, k) = and_then-eq-ok (validate_headers codec pattern hs) _ h in
      (validate_headers-allowed pattern hs e, validate_content_types-allowed pattern files k)

  validate_entries-valid :
      (manifest : List FileMetadata)
      → validate_entries codec manifest ≡ ok tt
      → All (λ m. codec.entry_error m ≡ none) manifest
  unfolding validate_entries
  validate_entries-valid [] h = tt
  validate_entries-valid (m ∷ manifest) h =
      let (e, k) = entry_result-eq-ok (codec.entry_error m) _ h in
      (e, validate_entries-valid manifest k)

  checked_manifest-valid :
      {S : Type 0} (o : Option (Option (List FileMetadata))) (s t : S)
      (manifest : List FileMetadata)
      → checked_manifest codec o s ≡ (ok manifest, t)
      → All (λ m. codec.entry_error m ≡ none) manifest
  checked_manifest-valid none s t manifest h = cc
  checked_manifest-valid (some none) s t manifest h = cc
  checked_manifest-valid (some (some ms)) s t manifest h =
      let (_, u, e, k) = >>=-eq-ok (lift (validate_entries codec ms)) (λ _. pure ms) s h in
      rw (← (pure-eq-ok ms manifest u t k).0)
        (validate_entries-valid ms (lift-eq-ok (validate_entries codec ms) s e).0)

  pub get_manifest_content-valid :
      {S : Type 0} (form : Form) (cid : String) (s t : S) (manifest : List FileMetadata)
      → get_manifest_content codec form cid s ≡ (ok manifest, t)
      → All (λ m. codec.entry_error m ≡ none) manifest
  unfolding get_manifest_content parse_files_metadata
  get_manifest_content-valid form cid s t manifest h =
      elim (Option-cases (lookup cid form.values)) [
        | inl e ↦ let h' = rw e at h in cc
        | inr (vs, e) ↦
            let h' = rw e at h in
            let (text, u, _, k) =
              >>=-eq-ok (lift (first_value vs)) (parse_files_metadata codec) s h' in
            checked_manifest-valid (codec.decode_manifest text) u t manifest k
      ]

  checked_scene-valid :
      (o : Option SceneFile) (sce : SceneFile)
      → checked_scene codec o ≡ ok sce
      → codec.valid_scene sce ≡ true
  checked_scene-valid none sce h = cc
  checked_scene-valid (some x) sce h = elim (Bool-cases (codec.valid_scene x)) [
    | inl valid ↦
        let same : x ≡ sce = let h' = rw valid at h in cc in ap codec.valid_scene (sym same) ∙ valid
    | inr bad ↦ let h' = rw bad at h in cc
  ]

  opened_scene-valid :
      (o : Result Reader) (sce : SceneFile)
      → opened_scene codec o ≡ ok sce
      → codec.valid_scene sce ≡ true
  unfolding parse_scene_json_file
  opened_scene-valid (ok file) sce h = checked_scene-valid (codec.decode_scene file) sce h
  opened_scene-valid (err e) sce h = cc
  opened_scene-valid panicked sce h = cc

  pub get_scene-valid :
      (files : Map (List FileHeader)) (sce : SceneFile)
      → get_scene codec files ≡ ok sce
      → codec.valid_scene sce ≡ true
  unfolding get_scene
  get_scene-valid [] sce h = cc
  get_scene-valid ((cid, []) ∷ files) sce h = cc
  get_scene-valid ((cid, f ∷ fs) ∷ files) sce h = elim (Bool-cases (f.filename == "scene.json")) [
    | inl e ↦ opened_scene-valid f.opened sce (rw e at h)
    | inr e ↦ get_scene-valid files sce (rw e at h)
  ]
