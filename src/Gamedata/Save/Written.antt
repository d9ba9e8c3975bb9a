-- ===== src/Gamedata/Save/Written.antt =====
-- What `updateGameData` leaves in the file of versions.
use rhine.Disk.{Disk, IsLawful}
use rhine.Gamedata.Pool.{Pool}
use rhine.Gamedata.Save.{
  Update, StringSorter, then_disk, write_versions, version_path, checked, finish_update,
  worker_failed,
}
use rhine.Gamedata.Version.{write_lines}
use rhine.Prelude.{
  map, refl, ◌∙◌, ◌∷◌, sym, true, ◌++◌, none, [], false, some, ◌≡◌, List, Option, Bytes,
}
use mathlib.Core.List.{append_assoc, append-nil}
use mathlib.Core.Bool.{true≢false}
use mathlib.Core.Path.{subst}

module _ {W E : Type 0} (disk : Disk W E) (file : Bytes → W → Option Bytes)
    (lawful : IsLawful disk file) where
  -- A call that did not fail left this in the file.
  abbrev Leaves : Bytes → Bytes → W × Option E → Type 0
  Leaves path content (w, none) = file path w ≡ some content
  Leaves path content (w, some e) = Unit

  write-Leaves :
      (path c line : Bytes) (w : W) (r : W × Option E)
      → file path w ≡ some c
      → disk.write path line w ≡ r
      → Leaves path (c ++ line) r
  write-Leaves path c line w (w', none) f e = lawful.write-file path c line w w' f e
  write-Leaves path c line w (w', some _) f e = tt

  then-Leaves :
      (path c d : Bytes) (r : W × Option E) (rest : W → W × Option E)
      → Leaves path c r
      → ((w : W) → file path w ≡ some c → Leaves path d (rest w))
      → Leaves path d (then_disk r rest)
  then-Leaves path c d (w, none) rest f h = h w f
  then-Leaves path c d (w, some e) rest f h = tt

  versions-Leaves :
      (path c : Bytes) (lines : List Bytes) (w : W)
      → file path w ≡ some c
      → Leaves path (c ++ write_lines lines) (write_versions disk path lines w)
  unfolding write_versions write_lines
  versions-Leaves path c [] w f = rw (append-nil c) f
  versions-Leaves path c (line ∷ lines) w f =
      subst (λ content. Leaves path content (write_versions disk path (line ∷ lines) w))
        (append_assoc (c ++ line) (b'\n' ∷ []) (write_lines lines)
          ∙ append_assoc c line (b'\n' ∷ write_lines lines))
        (then-Leaves path (c ++ line) (((c ++ line) ++ b'\n' ∷ []) ++ write_lines lines)
          (disk.write path line w) _ (write-Leaves path c line w (disk.write path line w) f refl)
          (λ w' f'.
            then-Leaves path ((c ++ line) ++ b'\n' ∷ [])
              (((c ++ line) ++ b'\n' ∷ []) ++ write_lines lines) (disk.write path (b'\n' ∷ []) w') _
              (write-Leaves path (c ++ line) (b'\n' ∷ []) w' (disk.write path (b'\n' ∷ []) w') f'
                refl)
              (versions-Leaves path ((c ++ line) ++ b'\n' ∷ []) lines)))

  created-Leaves :
      (path : Bytes) (w : W) (r : W × Option E) → disk.create path w ≡ r → Leaves path [] r
  created-Leaves path w (w', none) e = lawful.create-file path w w' e
  created-Leaves path w (w', some _) e = tt

  checked-Leaves :
      (path content : Bytes) (u : Update W E) (r : W × Option E)
      → u.update_checked ≡ false
      → Leaves path content r
      → (checked disk u r).update_checked ≡ true
      → file path (checked disk u r).files ≡ some content
  checked-Leaves path content u (w, none) n l c = l
  checked-Leaves path content u (w, some e) n l c = absurd (true≢false (sym c ∙ n))

  -- When the update is marked as done, the file of versions holds the sorted lines.
  pub finish_update-write_lines :
      (sorter : StringSorter) (bin_dir : Bytes) (p : Pool) (u : Update W E)
      → u.update_checked ≡ false
      → (finish_update disk sorter bin_dir p u).update_checked ≡ true
      → file (version_path disk bin_dir) (finish_update disk sorter bin_dir p u).files
        ≡ some (write_lines (sorter.sort p.etags))
  unfolding finish_update
  finish_update-write_lines sorter bin_dir p u n c =
      let path = version_path disk bin_dir in
      checked-Leaves path (write_lines (sorter.sort p.etags))
        (record u { lines = u.lines ++ map worker_failed p.errs })
        (then_disk (disk.create path u.files) (write_versions disk path (sorter.sort p.etags))) n
        (then-Leaves path [] (write_lines (sorter.sort p.etags)) (disk.create path u.files)
          (write_versions disk path (sorter.sort p.etags))
          (created-Leaves path u.files (disk.create path u.files) refl)
          (versions-Leaves path [] (sorter.sort p.etags)))
        c
