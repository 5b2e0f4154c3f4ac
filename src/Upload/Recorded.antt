-- ===== src/Upload/Recorded.antt =====
-- The second half of processUploadedFiles (internal/handlers/upload_service.go): the content hash of
-- the root CID has every file of the manifest.
use content_service.Prelude.{
  ◌≡◌, refl, ◌∙◌, String, Bool, true, false, not, ◌&&◌, List, [], ◌∷◌, Option, some, Map, ◌==◌, All,
  All-map_imp, arith, eq_iff, eq_refl, Bool-cases, inl, inr, lookup-insert,
}
use content_service.Prelude.Maps.{lookup, insert}
use content_service.Prelude.Text.{◌+++◌}
use content_service.Prelude.Entries.{any, any-perm, any-All, All_of_none}
use content_service.Go.{ok, for_each}
use content_service.Go.Inversion.{>>=-eq-ok, on_error-raise-eq-ok}
use content_service.Go.Loops.{for_each_keeps, for_each_all}
use content_service.Redis.{hash, hash_of, Value}
use content_service.Redis.Client
use content_service.Redis.Keys.{different_keys, uploaded_key-first, content_key-first}
use content_service.Redis.Scenes.{Keyspace}
use content_service.Upload.{FileMetadata, group_file_paths_by_cid}
use content_service.Upload.Paths.{of_paths, names_file, any_path-group, none_unnamed_path}
use content_service.Upload.Service.{UploadService, record_path, record_file}

abbrev pub content_key : String → String
content_key root = Client.content_key_prefix +++ root

-- The content hash has the file under a CID that the manifest gives its name.
pub record IsListed (manifest : List FileMetadata) (d : Keyspace) (root name : String)
    : Type 0 where
  pub contents : Map String
  pub cid : String
  pub at_key : d (content_key root) ≡ some (hash contents)
  pub found : lookup name contents ≡ some cid
  pub named : names_file manifest cid name ≡ true

pub uploaded-ne-content :
    (root : String) → (Client.uploaded_elements_key == content_key root) ≡ false
uploaded-ne-content root =
    different_keys _ _ 117 99 uploaded_key-first (content_key-first root) (omega arith)

found_hash : (v : Option Value) (h g : Map String) → hash_of v ≡ some g → v ≡ some (hash h) → h ≡ g
found_hash v h g e q = let e' = rw q at e in cc

module _ {R D : Type 0} (us : UploadService R D) (manifest : List FileMetadata)
    (root : String) where
  open us use {redis, order}
  open redis use {value_at}

  abbrev IsNamed : String → List String → Type 0
  IsNamed cid = All λ name. names_file manifest cid name ≡ true

  record_path-stores :
      (cid path : String) (s t : R)
      → record_path us root cid path s ≡ (ok tt, t)
      → (h : Map String) × (hash_of (value_at s (content_key root)) ≡ some h)
        × (value_at t (content_key root) ≡ some (hash (insert path cid h)))
  unfolding record_path Client.store_content
  record_path-stores cid path s t e =
      let (h, found, write) =
        redis.hset_ok (content_key root) path cid s t
          (on_error-raise-eq-ok (Client.store_content redis root path cid) _ s e) in
      (h, found, write (content_key root) ∙ rw (eq_refl (content_key root)) refl)

  record_path-IsListed :
      (cid path : String) (s t : R)
      → names_file manifest cid path ≡ true
      → record_path us root cid path s ≡ (ok tt, t)
      → IsListed manifest (value_at t) root path
  record_path-IsListed cid path s t named e =
      let (h, _, now) = record_path-stores cid path s t e in
      record {
        contents = insert path cid h;
        cid = cid;
        at_key = now;
        found = lookup-insert path path cid h ∙ rw (eq_refl path) refl;
        named = named;
      }

  record_path-keeps :
      (name cid path : String) (s t : R)
      → names_file manifest cid path ≡ true
      → IsListed manifest (value_at s) root name
      → record_path us root cid path s ≡ (ok tt, t)
      → IsListed manifest (value_at t) root name
  record_path-keeps name cid path s t named l e =
      let (h, found, now) = record_path-stores cid path s t e in
      let same : l.contents ≡ h = found_hash _ l.contents h found l.at_key in
      elim (Bool-cases (path == name)) [
        | inl here ↦ rw ((eq_iff path name).0 here) at (record_path-IsListed cid path s t named e)
        | inr other ↦ record {
          contents = insert path cid h;
          cid = l.cid;
          at_key = now;
          found = lookup-insert path name cid h ∙ rw (other, ← same) l.found;
          named = l.named;
        }
      ]

  add_cid-keeps :
      (name cid : String) (s t : R)
      → IsListed manifest (value_at s) root name
      → Client.add_cid redis cid s ≡ (ok tt, t)
      → IsListed manifest (value_at t) root name
  unfolding Client.add_cid
  add_cid-keeps name cid s t l e =
      let (_, _, write) = redis.sadd_ok _ cid s t e in
      record {
        contents = l.contents;
        cid = l.cid;
        at_key = write (content_key root) ∙ rw (uploaded-ne-content root) l.at_key;
        found = l.found;
        named = l.named;
      }

  record_file-IsListed :
      (entry : String × List String) (s t : R)
      → IsNamed entry.0 entry.1
      → record_file us root entry s ≡ (ok tt, t)
      → All (IsListed manifest (value_at t) root) entry.1
  unfolding record_file
  record_file-IsListed entry s t named e =
      let (_, u, e1, k1) = >>=-eq-ok (for_each entry.1 (record_path us root entry.0)) _ s e in
      All-map_imp entry.1
        (λ name l.
          add_cid-keeps name entry.0 u t l
            (on_error-raise-eq-ok (Client.add_cid redis entry.0) _ u k1))
        (for_each_all (record_path us root entry.0)
          (λ name. names_file manifest entry.0 name ≡ true)
          (λ name x. IsListed manifest (value_at x) root name)
          (λ name x y i q. record_path-IsListed entry.0 name x y i q)
          (λ name path x y i l q. record_path-keeps name entry.0 path x y i l q) entry.1 s named e1)

  record_file-keeps :
      (name : String) (entry : String × List String) (s t : R)
      → IsNamed entry.0 entry.1
      → IsListed manifest (value_at s) root name
      → record_file us root entry s ≡ (ok tt, t)
      → IsListed manifest (value_at t) root name
  unfolding record_file
  record_file-keeps name entry s t named l e =
      let (_, u, e1, k1) = >>=-eq-ok (for_each entry.1 (record_path us root entry.0)) _ s e in
      add_cid-keeps name entry.0 u t
        (for_each_keeps (record_path us root entry.0)
          (λ path. names_file manifest entry.0 path ≡ true)
          (λ x. IsListed manifest (value_at x) root name)
          (λ path x y i q run. record_path-keeps name entry.0 path x y i q run) entry.1 s named l
          e1)
        (on_error-raise-eq-ok (Client.add_cid redis entry.0) _ u k1)

  entries-IsNamed :
      (es : Map (List String))
      → any (of_paths λ c n. not (names_file manifest c n)) es ≡ false
      → All (λ e. IsNamed e.0 e.1) es
  entries-IsNamed [] h = tt
  entries-IsNamed (e ∷ es) h = (
    All_of_none (names_file manifest e.0) e.1 (ground (arith, h)),
    entries-IsNamed es (ground (arith, h)),
  )

  -- After the files were recorded, the content hash has every file of the manifest, under a CID that
  -- the manifest gives its name.
  pub record_files-IsListed :
      (s t : R)
      → for_each
          (order.range (List String) (group_file_paths_by_cid manifest))
          (record_file us root)
          s
        ≡ (ok tt, t)
      → (c name : String) → names_file manifest c name ≡ true
      → IsListed manifest (value_at t) root name
  record_files-IsListed s t e c name named =
      let group = group_file_paths_by_cid manifest in
      let visits = order.range_perm (List String) group in
      let entries = entries-IsNamed (order.range (List String) group) (
        any-perm (of_paths λ d n. not (names_file manifest d n)) visits
        ∙ none_unnamed_path manifest) in
      let listed =
        for_each_all (record_file us root) (λ entry. IsNamed entry.0 entry.1)
          (λ entry x. All (IsListed manifest (value_at x) root) entry.1)
          (λ entry x y i q. record_file-IsListed entry x y i q)
          (λ entry other x y i ls q.
            All-map_imp entry.1 (λ n l. record_file-keeps n other x y i l q) ls)
          (order.range (List String) group) s entries e in
      let q : String → String → Bool = λ d n. (d == c) && (n == name) in
      (any-All (of_paths q)
        (λ entry here ls.
          (any-All (q entry.0) {Q = λ _. IsListed manifest (value_at t) root name}
            (λ n match l. rw ((eq_iff n name).0 (ground (arith, match))) at l) entry.1 ls here).1)
        (order.range (List String) group) listed
        (any-perm (of_paths q) visits ∙ any_path-group q manifest ∙ named)).1
