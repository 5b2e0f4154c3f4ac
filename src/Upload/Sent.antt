-- ===== src/Upload/Sent.antt =====
-- What parseRequest (internal/handlers/upload_handler.go) reads of the form: its metadata field, the
-- field named by the root CID, and the first file called scene.json.
use content_service.Prelude.{
  ◌≡◌, refl, ap, String, List, [], ◌∷◌, ◌++◌, none, some, ◌==◌, Map, lookup, Option, Option-cases,
  Bool-cases, eq_iff, inl, inr,
}
use content_service.Prelude.Text.{trim_prefix}
use content_service.Go.{Result, ok, err, panicked, pure, lift}
use content_service.Go.Inversion.{>>=-eq-ok, pure-eq-ok, lift-eq-ok}
use content_service.Storage.{Reader}
use content_service.Upload.{FileMetadata, Metadata, SceneFile, FileHeader}
use content_service.Upload.Request.{
  Codec, Form, first_value, parse_scene_metadata, checked_metadata, get_metadata, checked_scene,
  opened_scene, parse_scene_json_file, get_scene, validate_entries, checked_manifest,
  parse_files_metadata, get_manifest_content,
}

-- The first value of the form's field.
pub record HasText (values : Map (List String)) (field text : String) : Type 0 where
  pub others : List String
  pub found : lookup field values ≡ some (text ∷ others)

-- The metadata are decoded from the field "metadata", with the root CID of their value.
pub record IsSentMetadata (codec : Codec) (form : Form) (m : Metadata) : Type 0 where
  pub text : String
  pub part : HasText form.values "metadata" text
  pub sent : Metadata
  pub decoded : codec.decode_metadata text ≡ some sent
  pub named : m ≡ record sent { root_cid = trim_prefix sent.value "/ipfs/" }

-- The manifest is decoded from the field that the root CID names.
pub record IsSentManifest (codec : Codec) (form : Form) (root : String) (ms : List FileMetadata)
    : Type 0 where
  pub text : String
  pub part : HasText form.values root text
  pub decoded : codec.decode_manifest text ≡ some (some ms)

-- The scene is decoded from the first file of a part, which is called scene.json.
pub record IsSentScene (codec : Codec) (files : Map (List FileHeader)) (sce : SceneFile)
    : Type 0 where
  pub before : Map (List FileHeader)
  pub name : String
  pub file : FileHeader
  pub others : List FileHeader
  pub after : Map (List FileHeader)
  pub place : files ≡ before ++ ((name, file ∷ others) ∷ after)
  pub called : file.filename ≡ "scene.json"
  pub content : Reader
  pub opened : file.opened ≡ ok content
  pub decoded : codec.decode_scene content ≡ some sce

first_text :
    (values : Map (List String)) (field text : String) (vs : List String)
    → lookup field values ≡ some vs
    → first_value vs ≡ ok text
    → HasText values field text
first_text values field text [] e h = cc
first_text values field text (v ∷ vs) e h =
    let same : v ≡ text = cc in record { others = vs; found = rw (← same) e }

module _ (codec : Codec) where
  checked_metadata-sent :
      (o : Option Metadata) (m : Metadata)
      → checked_metadata codec o ≡ ok m
      → (sent : Metadata) × (o ≡ some sent)
        × (m ≡ record sent { root_cid = trim_prefix sent.value "/ipfs/" })
  checked_metadata-sent none m h = cc
  checked_metadata-sent (some d) m h =
      elim (Bool-cases
        (codec.valid_metadata (record d { root_cid = trim_prefix d.value "/ipfs/" }))) [
          | inl valid ↦ let h' = rw valid at h in (d, refl, cc)
          | inr bad ↦ let h' = rw bad at h in cc
        ]

  pub get_metadata-IsSentMetadata :
      {S : Type 0} (form : Form) (s t : S) (m : Metadata)
      → get_metadata codec form s ≡ (ok m, t)
      → IsSentMetadata codec form m
  unfolding get_metadata parse_scene_metadata
  get_metadata-IsSentMetadata form s t m h = elim (Option-cases (lookup "metadata" form.values)) [
    | inl e ↦ let h' = rw e at h in cc
    | inr (vs, e) ↦
        let h' = rw e at h in
        let (text, u, first, k) =
          >>=-eq-ok (lift (first_value vs)) (λ text. lift (parse_scene_metadata codec text)) s h' in
        let (sent, decoded, named) =
          checked_metadata-sent (codec.decode_metadata text) m
            (lift-eq-ok (parse_scene_metadata codec text) u k).0 in
        record {
          text = text;
          part =
              first_text form.values "metadata" text vs e (lift-eq-ok (first_value vs) s first).0;
          sent = sent;
          decoded = decoded;
          named = named;
        }
  ]

  checked_manifest-sent :
      {S : Type 0} (o : Option (Option (List FileMetadata))) (s t : S) (ms : List FileMetadata)
      → checked_manifest codec o s ≡ (ok ms, t)
      → o ≡ some (some ms)
  checked_manifest-sent none s t ms h = cc
  checked_manifest-sent (some none) s t ms h = cc
  checked_manifest-sent (some (some ns)) s t ms h =
      let (_, u, _, k) = >>=-eq-ok (lift (validate_entries codec ns)) (λ _. pure ns) s h in
      ap (λ x. some (some x)) (pure-eq-ok ns ms u t k).0

  pub get_manifest_content-IsSentManifest :
      {S : Type 0} (form : Form) (root : String) (s t : S) (ms : List FileMetadata)
      → get_manifest_content codec form root s ≡ (ok ms, t)
      → IsSentManifest codec form root ms
  unfolding get_manifest_content parse_files_metadata
  get_manifest_content-IsSentManifest form root s t ms h =
      elim (Option-cases (lookup root form.values)) [
        | inl e ↦ let h' = rw e at h in cc
        | inr (vs, e) ↦
            let h' = rw e at h in
            let (text, u, first, k) =
              >>=-eq-ok (lift (first_value vs)) (parse_files_metadata codec) s h' in
            record {
              text = text;
              part = first_text form.values root text vs e (lift-eq-ok (first_value vs) s first).0;
              decoded = checked_manifest-sent (codec.decode_manifest text) u t ms k;
            }
      ]

  checked_scene-sent :
      (o : Option SceneFile) (sce : SceneFile) → checked_scene codec o ≡ ok sce → o ≡ some sce
  checked_scene-sent none sce h = cc
  checked_scene-sent (some x) sce h = elim (Bool-cases (codec.valid_scene x)) [
    | inl valid ↦ let h' = rw valid at h in cc
    | inr bad ↦ let h' = rw bad at h in cc
  ]

  opened_scene-sent :
      (o : Result Reader) (sce : SceneFile)
      → opened_scene codec o ≡ ok sce
      → (content : Reader) × (o ≡ ok content) × (codec.decode_scene content ≡ some sce)
  unfolding parse_scene_json_file
  opened_scene-sent (ok file) sce h =
      (file, refl, checked_scene-sent (codec.decode_scene file) sce h)
  opened_scene-sent (err e) sce h = cc
  opened_scene-sent panicked sce h = cc

  pub get_scene-IsSentScene :
      (files : Map (List FileHeader)) (sce : SceneFile)
      → get_scene codec files ≡ ok sce
      → IsSentScene codec files sce
  unfolding get_scene
  get_scene-IsSentScene [] sce h = cc
  get_scene-IsSentScene ((name, []) ∷ files) sce h = cc
  get_scene-IsSentScene ((name, f ∷ fs) ∷ files) sce h =
      elim (Bool-cases (f.filename == "scene.json")) [
        | inl called ↦
            let (content, opened, decoded) = opened_scene-sent f.opened sce (rw called at h) in
            record {
              before = [];
              name = name;
              file = f;
              others = fs;
              after = files;
              place = refl;
              called = (eq_iff f.filename "scene.json").0 called;
              content = content;
              opened = opened;
              decoded = decoded;
            }
        | inr other ↦
            let later = get_scene-IsSentScene files sce (rw other at h) in
            record {
              before = (name, f ∷ fs) ∷ later.before;
              name = later.name;
              file = later.file;
              others = later.others;
              after = later.after;
              place = ap (λ fs'. (name, f ∷ fs) ∷ fs') later.place;
              called = later.called;
              content = later.content;
              opened = later.opened;
              decoded = later.decoded;
            }
      ]
