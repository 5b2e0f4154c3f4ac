-- ===== src/Upload/Paths.antt =====
-- groupFilePathsByCid of internal/handlers/upload_service.go: the map it makes has the files of the
-- manifest and no others.
use content_service.Prelude.{
  ◌≡◌, refl, ◌∙◌, String, Bool, true, false, not, ◌||◌, ◌&&◌, List, [], ◌∷◌, ◌++◌, Map, ◌==◌, arith,
  eq_iff, eq_refl, Bool-cases, inl, inr,
}
use content_service.Prelude.Maps.{insert, lookup}
use content_service.Prelude.Entries.{any, any-append}
use content_service.Upload.{
  FileMetadata, or_no_paths, paths_at, group_from, group_file_paths_by_cid,
}

-- A test of a CID and a path, on the entries of a manifest and on those of a map of paths.
abbrev pub of_file : (String → String → Bool) → FileMetadata → Bool
of_file q f = q f.cid f.name

abbrev pub of_paths : (String → String → Bool) → String × List String → Bool
of_paths q entry = any (q entry.0) entry.1

-- The manifest gives the name to a file of this CID.
abbrev pub names_file : List FileMetadata → String → String → Bool
names_file manifest c name = any (of_file λ d n. (d == c) && (n == name)) manifest

module _ (q : String → String → Bool) where
  any_path-insert :
      (c name : String) (m : Map (List String)) (old : List String)
      → old ≡ or_no_paths (lookup c m)
      → any (of_paths q) (insert c (old ++ name ∷ []) m) ≡ (any (of_paths q) m || q c name)
  unfolding insert lookup
  any_path-insert c name [] old e = rw e (ground arith)
  any_path-insert c name ((d, ps) ∷ m) old e = elim (Bool-cases (d == c)) [
    | inl same ↦
        let e' = rw same at e in
        rw (same, e', any-append (q c) ps (name ∷ []), (eq_iff d c).0 same) (ground arith)
    | inr other ↦ rw other (ground (arith, any_path-insert c name m old (rw other at e)))
  ]

  any_path-group_from :
      (m : Map (List String)) (files : List FileMetadata)
      → any (of_paths q) (group_from m files) ≡ (any (of_paths q) m || any (of_file q) files)
  unfolding group_from
  any_path-group_from m [] = ground arith
  any_path-group_from m (f ∷ files) =
      any_path-group_from (insert f.cid (paths_at f.cid m ++ f.name ∷ []) m) files
      ∙ rw (any_path-insert f.cid f.name m (paths_at f.cid m) refl) (ground arith)

  -- Some path of the map passes the test if and only if some file of the manifest does.
  pub any_path-group :
      (files : List FileMetadata)
      → any (of_paths q) (group_file_paths_by_cid files) ≡ any (of_file q) files
  unfolding group_file_paths_by_cid
  any_path-group files = any_path-group_from [] files

-- Each file of the manifest is named by it.
none_unnamed :
    (manifest files : List FileMetadata)
    → ((c n : String) → names_file files c n ≡ true → names_file manifest c n ≡ true)
    → any (of_file λ c n. not (names_file manifest c n)) files ≡ false
none_unnamed manifest [] h = refl
none_unnamed manifest (f ∷ files) h =
    rw (h f.cid f.name (rw (eq_refl f.cid, eq_refl f.name) refl))
      (none_unnamed manifest files (λ c n k. h c n (ground (arith, k))))

pub none_unnamed_path :
    (manifest : List FileMetadata)
    → any (of_paths λ c n. not (names_file manifest c n)) (group_file_paths_by_cid manifest) ≡ false
none_unnamed_path manifest =
    any_path-group (λ c n. not (names_file manifest c n)) manifest
    ∙ none_unnamed manifest manifest (λ c n k. k)
