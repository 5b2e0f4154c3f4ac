-- ===== src/Upload/Parsed.antt =====
-- parseRequest as a whole: a request that it returns is well-formed, and it changes no state.
use content_service.Prelude.{
  ◌≡◌, refl, ◌∙◌, String, Bool, true, false, List, Option, none, some, length, ltb, All,
}
use content_service.Prelude.Int.{ℤ, pos, ltb_ℤ}
use content_service.Prelude.Text.{trim_prefix}
use content_service.Go.{
  GoError, required_value, unexpected, Result, ok, panicked, Exec, pure, raise, lift, ◌>>=◌,
  on_error,
}
use content_service.Go.Inversion.{
  >>=-eq-ok, pure-eq-ok, lift-eq-ok, Along, IsPreorder, Along-bind, Along-lift, Along-raise,
  Along-pure, Along-on_error, on_error-raise-eq-ok,
}
use content_service.Upload.Sent.{
  IsSentMetadata, IsSentManifest, IsSentScene, get_metadata-IsSentMetadata,
  get_manifest_content-IsSentManifest, get_scene-IsSentScene,
}
use content_service.Upload.{Metadata, FileMetadata, FileHeader, SceneFile, UploadRequest}
use content_service.Upload.Request.{
  Form, HttpRequest, UploadHandler, has_request_expired, first_value, get_metadata, metadata_of,
  get_manifest_content, manifest_of, parse_files_metadata, checked_manifest, validate_entries,
  parse_scene_metadata, validate_content_types, get_scene, refuse_if, refuse_some, max_elements,
  request_of, parse_metadata, parse_manifest, parse_scene, parse_request,
}
use content_service.Upload.Parsing.{
  IsParsed, get_metadata-valid, get_manifest_content-valid, validate_content_types-allowed,
  get_scene-valid,
}

refuse_if-eq-ok :
    {S : Type 0} (b : Bool) (e : GoError) (s : S) {t : S} → refuse_if b e s ≡ (ok tt, t) → b ≡ false
refuse_if-eq-ok true e s h = cc
refuse_if-eq-ok false e s h = refl

refuse_some-eq-ok :
    {S : Type 0} (o : Option String) (f : String → GoError) (s : S) {t : S}
    → refuse_some o f s ≡ (ok tt, t)
    → o ≡ none
refuse_some-eq-ok none f s h = refl
refuse_some-eq-ok (some x) f s h = cc

-- An action that leaves the state as it is.
abbrev pub Unchanged : {S : Type 0} → S → S → Type 0
Unchanged s t = t ≡ s

unchanged : {S : Type 0} → IsPreorder (Unchanged {S = S})
unchanged = record { same = λ s. refl; trans = λ s t u h k. k ∙ h }

module _ (uh : UploadHandler) {S : Type 0} where
  open uh use {codec, filter_pattern, assets_limit, time_to_live, order}

  parse_metadata-valid :
      (now : ℤ) (form : Form) (s t : S) (m : Metadata)
      → parse_metadata uh now form s ≡ (ok m, t)
      → (m.root_cid ≡ trim_prefix m.value "/ipfs/")
        × (codec.valid_metadata m ≡ true)
        × (has_request_expired now m time_to_live ≡ false)
        × IsSentMetadata codec form m
  unfolding parse_metadata
  parse_metadata-valid now form s t m h =
      let (x, u, e, k) = >>=-eq-ok (get_metadata codec form) _ s h in
      let (_, v, e2, k2) = >>=-eq-ok _ (λ _. pure x) u k in
      let (root, valid) = get_metadata-valid codec form s u x e in
      rw (← (pure-eq-ok x m v t k2).0)
        (root, valid, refuse_if-eq-ok _ _ u e2, get_metadata-IsSentMetadata codec form s u x e)

  parse_manifest-valid :
      (form : Form) (root_cid : String) (s t : S) (manifest : List FileMetadata)
      → parse_manifest uh form root_cid s ≡ (ok manifest, t)
      → All (λ m. codec.entry_error m ≡ none) manifest
        × All
            (λ f. All (λ h. codec.matches filter_pattern h.content_type ≡ ok true) f.1)
            (order.range (List FileHeader) form.files)
        × (ltb (length manifest) (length form.files) ≡ false)
        × IsSentManifest codec form root_cid manifest
  unfolding parse_manifest
  parse_manifest-valid form root_cid s t manifest h =
      let files = order.range (List FileHeader) form.files in
      let (ms, u, e, k) = >>=-eq-ok (get_manifest_content codec form root_cid) _ s h in
      let (_, v, e2, k2) =
        >>=-eq-ok (lift (validate_content_types codec filter_pattern files)) _ u k in
      let (_, x, e3, k3) = >>=-eq-ok _ (λ _. pure ms) v k2 in
      rw (← (pure-eq-ok ms manifest x t k3).0) (
        get_manifest_content-valid codec form root_cid s u ms e,
        validate_content_types-allowed codec filter_pattern files
            (lift-eq-ok (validate_content_types codec filter_pattern files) u e2).0,
        refuse_if-eq-ok _ _ v e3,
        get_manifest_content-IsSentManifest codec form root_cid s u ms e,
      )

  parse_scene-valid :
      (form : Form) (manifest : List FileMetadata) (s t : S) (sce : SceneFile)
      → parse_scene uh form manifest s ≡ (ok sce, t)
      → (codec.valid_scene sce ≡ true)
        × (ltb_ℤ (max_elements sce assets_limit) (pos (length manifest)) ≡ false)
        × IsSentScene codec (order.range (List FileHeader) form.files) sce
  unfolding parse_scene
  parse_scene-valid form manifest s t sce h =
      let files = order.range (List FileHeader) form.files in
      let (x, u, e, k) = >>=-eq-ok (lift (get_scene codec files)) _ s h in
      let (_, v, e2, k2) = >>=-eq-ok _ (λ _. pure x) u k in
      rw (← (pure-eq-ok x sce v t k2).0) (
        get_scene-valid codec files x (lift-eq-ok (get_scene codec files) s e).0,
        refuse_if-eq-ok _ _ u e2,
        get_scene-IsSentScene codec files x (lift-eq-ok (get_scene codec files) s e).0,
      )

  -- A request that parseRequest returns without an error.
  pub parse_request-IsParsed :
      (now : ℤ) (r : HttpRequest) (s t : S) (request : UploadRequest)
      → parse_request uh now r s ≡ (ok request, t)
      → IsParsed uh now r request
  unfolding parse_request
  parse_request-IsParsed now r s t request h =
      let (form, s1, e1, k1) =
        >>=-eq-ok (on_error (lift r.form) λ e. raise (unexpected "error parsing request form" e)) _
          s h in
      let (m, s2, e2, k2) = >>=-eq-ok (parse_metadata uh now form) _ s1 k1 in
      let (manifest, s3, e3, k3) = >>=-eq-ok (parse_manifest uh form m.root_cid) _ s2 k2 in
      let (scene, s4, e4, k4) = >>=-eq-ok (parse_scene uh form manifest) _ s3 k3 in
      let built = request_of form r.origin m manifest scene in
      let (_, s5, e5, k5) =
        >>=-eq-ok (refuse_some (codec.request_error built) required_value) (λ _. pure built) s4
          k4 in
      rw (← (pure-eq-ok built request s5 t k5).0) (
        parsed_parts form m manifest scene s1 s2 s3 s4
          (lift-eq-ok r.form s (on_error-raise-eq-ok (lift r.form) _ s e1)).0 e2 e3 e4
          (refuse_some-eq-ok (codec.request_error built) required_value s4 e5))
    where
      parsed_parts :
          (form : Form) (m : Metadata) (manifest : List FileMetadata) (scene : SceneFile)
          (s1 s2 s3 s4 : S)
          → r.form ≡ ok form
          → parse_metadata uh now form s1 ≡ (ok m, s2)
          → parse_manifest uh form m.root_cid s2 ≡ (ok manifest, s3)
          → parse_scene uh form manifest s3 ≡ (ok scene, s4)
          → codec.request_error (request_of form r.origin m manifest scene) ≡ none
          → IsParsed uh now r (request_of form r.origin m manifest scene)
      parsed_parts form m manifest scene s1 s2 s3 s4 e1 e2 e3 e4 e5 =
          let (root, valid, in_force, metadata_sent) = parse_metadata-valid now form s1 s2 m e2 in
          let (entries, types, number, manifest_sent) =
            parse_manifest-valid form m.root_cid s2 s3 manifest e3 in
          let (scene_valid, within, scene_sent) = parse_scene-valid form manifest s3 s4 scene e4 in
          record {
            form = form;
            posted_form = e1;
            metadata_sent = metadata_sent;
            manifest_sent = manifest_sent;
            scene_sent = scene_sent;
            files_sent = refl;
            origin_sent = refl;
            root = root;
            metadata_valid = valid;
            in_force = in_force;
            entries_valid = entries;
            types_allowed = types;
            files_in_manifest = number;
            scene_valid = scene_valid;
            within_limit = within;
            request_valid = e5;
          }

  refuse_if-Unchanged : (b : Bool) (e : GoError) → Along Unchanged (refuse_if {S = S} b e)
  refuse_if-Unchanged true e = Along-raise Unchanged unchanged e
  refuse_if-Unchanged false e = Along-pure Unchanged unchanged tt

  refuse_some-Unchanged :
      (o : Option String) (f : String → GoError) → Along Unchanged (refuse_some {S = S} o f)
  refuse_some-Unchanged none f = Along-pure Unchanged unchanged tt
  refuse_some-Unchanged (some x) f = Along-raise Unchanged unchanged (f x)

  metadata_of-Unchanged : (o : Option (List String)) → Along Unchanged (metadata_of codec {S = S} o)
  metadata_of-Unchanged none = Along-raise Unchanged unchanged _
  metadata_of-Unchanged (some vs) =
      Along-bind Unchanged unchanged (lift (first_value vs)) _ (Along-lift Unchanged unchanged _)
        (λ text. Along-lift Unchanged unchanged (parse_scene_metadata codec text))

  checked_manifest-Unchanged :
      (o : Option (Option (List FileMetadata))) → Along Unchanged (checked_manifest codec {S = S} o)
  checked_manifest-Unchanged none = Along-raise Unchanged unchanged _
  checked_manifest-Unchanged (some none) = Along-lift Unchanged unchanged panicked
  checked_manifest-Unchanged (some (some ms)) =
      Along-bind Unchanged unchanged (lift (validate_entries codec ms)) (λ _. pure ms)
        (Along-lift Unchanged unchanged _) (λ _. Along-pure Unchanged unchanged ms)

  manifest_of-Unchanged : (o : Option (List String)) → Along Unchanged (manifest_of codec {S = S} o)
  unfolding parse_files_metadata
  manifest_of-Unchanged none = Along-raise Unchanged unchanged _
  manifest_of-Unchanged (some vs) =
      Along-bind Unchanged unchanged (lift (first_value vs)) (parse_files_metadata codec)
        (Along-lift Unchanged unchanged _)
        (λ text. checked_manifest-Unchanged (codec.decode_manifest text))

  abbrev pub Keeps : {A : Type 0} → Exec S A → Type 0
  Keeps m = Along Unchanged m

  bind-Keeps :
      {A B : Type 0} {m : Exec S A} {f : A → Exec S B}
      → Keeps m
      → ((a : A) → Keeps (f a))
      → Keeps (m >>= f)
  bind-Keeps h k = Along-bind Unchanged unchanged _ _ h k

  lift-Keeps : {A : Type 0} {r : Result A} → Keeps (lift r)
  lift-Keeps {r} = Along-lift Unchanged unchanged r

  pure-Keeps : {A : Type 0} {a : A} → Keeps (pure a)
  pure-Keeps {a} = Along-pure Unchanged unchanged a

  -- parseRequest changes no state, whatever its outcome.
  pub parse_request-Unchanged : (now : ℤ) (r : HttpRequest) → Keeps (parse_request uh now r)
  unfolding parse_request parse_metadata parse_manifest parse_scene get_metadata
      get_manifest_content
  parse_request-Unchanged now r =
      bind-Keeps
        (Along-on_error Unchanged unchanged (lift r.form) _ lift-Keeps
          (λ e. Along-raise Unchanged unchanged _))
        (λ form.
          bind-Keeps
            (bind-Keeps (metadata_of-Unchanged _)
              (λ m. bind-Keeps (refuse_if-Unchanged _ _) (λ _. pure-Keeps)))
            (λ m.
              bind-Keeps
                (bind-Keeps (manifest_of-Unchanged _) (λ ms.
                  bind-Keeps lift-Keeps
                    (λ _. bind-Keeps (refuse_if-Unchanged _ _) (λ _. pure-Keeps))))
                (λ ms.
                  bind-Keeps
                    (bind-Keeps lift-Keeps
                      (λ sce. bind-Keeps (refuse_if-Unchanged _ _) (λ _. pure-Keeps)))
                    (λ sce. bind-Keeps (refuse_some-Unchanged _ _) (λ _. pure-Keeps)))))
