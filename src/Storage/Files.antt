-- ===== src/Storage/Files.antt =====
-- storage/local.go: a file that was saved is the one that is downloaded.
use content_service.Prelude.{◌≡◌, sym, ap, ◌∙◌, String, false, some, ◌==◌}
use content_service.Go.{ok, not_found, on_error, pure, raise}
use content_service.Go.Inversion.{>>=-eq-ok, on_error-raise-eq-ok}
use content_service.Auth.{Bytes}
use content_service.Storage.{Reader, FileSystem, local_save_file, local_download_file}
use content_service.Prelude.Text.{◌+++◌}

module _ {D : Type 0} (fs : FileSystem D) (root : String) where
  open fs use {
    join, dir, base, file_at, mkdir_all, create, copy, open_file, create_ok, copy_ok, open_file_ok,
  }

  -- A file that is saved is at its path, with the bytes of the reader.
  pub local_save_file-file_at :
      (name : String) (r : Reader) (content_type : String) (s t : D) (location : String)
      → local_save_file fs root name r content_type s ≡ (ok location, t)
      → (b : Bytes) × (r ≡ ok b) × (file_at t (join root name) ≡ some b)
  unfolding local_save_file
  local_save_file-file_at name r content_type s t location h =
      let path = join root name in
      let (_, s1, e1, k1) = >>=-eq-ok (create path) _ s h in
      let (_, s2, e2, k2) = >>=-eq-ok (copy path r) (λ _. pure path) s1 k1 in
      let ends : s2 ≡ t = ap (λ x. x.1) k2 in
      let (b, read, content) = copy_ok path r s1 s2 (create_ok path s s1 e1) e2 in
      (b, read, rw (← ends) content)

  -- The files at other paths stay.
  pub local_save_file-others :
      (name other : String) (r : Reader) (content_type : String) (s t : D) (location : String)
      → (join root name == join root other) ≡ false
      → local_save_file fs root name r content_type s ≡ (ok location, t)
      → file_at t (join root other) ≡ file_at s (join root other)
  unfolding local_save_file
  local_save_file-others name other r content_type s t location differ h =
      let path = join root name in
      let (_, s1, e1, k1) = >>=-eq-ok (create path) _ s h in
      let (_, s2, e2, k2) = >>=-eq-ok (copy path r) (λ _. pure path) s1 k1 in
      ap (λ x. file_at x.1 (join root other)) (sym k2)
      ∙ fs.copy_others root name root other r s1 s2 differ e2
      ∙ fs.create_others root name root other s s1 differ e1

  -- What is downloaded is the file of that name.
  pub local_download_file-file_at :
      (name a c : String) (s t : D)
      → local_download_file fs root name (join a c) s ≡ (ok tt, t)
      → (b : Bytes) × (file_at s (join root name) ≡ some b) × (file_at t (join a c) ≡ some b)
  unfolding local_download_file
  local_download_file-file_at name a c s t h =
      let target = join a c in
      let made = join (dir target) (base target) in
      let (file, s1, e1, k1) =
        >>=-eq-ok
          (on_error (open_file (join root name)) λ e. raise (not_found ("Not found: " +++ name))) _
          s h in
      let opened = on_error-raise-eq-ok (open_file (join root name)) _ s e1 in
      let (_, s2, e2, k2) = >>=-eq-ok (mkdir_all (dir target)) _ s1 k1 in
      let (_, s3, e3, k3) = >>=-eq-ok (create made) _ s2 k2 in
      let (b, read, content) = copy_ok made file s3 t (create_ok made s2 s3 e3) k3 in
      (
        b,
        open_file_ok (join root name) s s1 file opened b read,
        ap (file_at t) (sym (fs.join-dir-base a c)) ∙ content,
      )
