-- ===== src/Gamedata/Save.antt =====
-- The two ends of `updateGameData` (utils/gamedata/load.go): the jobs that it sends, and the file of
-- versions that it writes when its workers are gone.
pub mod Tally
pub mod Written
pub mod Etags
pub mod Next
mod Tests
use rhine.Disk.{Disk}
use rhine.Gamedata.Pool.{Pool, UpdateError}
use mathlib.Core.List.{Perm}
use rhine.Prelude.{
  Bytes, Bool, true, false, Option, none, some, List, [], ◌∷◌, ◌++◌, map, codes, if◌then◌else◌,
}

-- `fileList`, each format without the `%s` that it begins with.
abbrev pub file_list : List Bytes
file_list =
    codes "/gamedata/excel/stage_table.json"
    ∷ codes "/gamedata/excel/item_table.json"
    ∷ codes "/gamedata/excel/character_table.json"
    ∷ codes "/gamedata/excel/gacha_table.json"
    ∷ []

-- The jobs, for the values of `regionMap` in the order in which the loop meets them.
abbrev pub jobs_of : List Bytes → List Bytes
jobs_of [] = []
jobs_of (region ∷ regions) = map (λ format. region ++ format) file_list ++ jobs_of regions

-- `sort.Strings`, of which the file needs that it permutes.
pub record StringSorter : Type 0 where
  pub sort : List Bytes → List Bytes
  pub sort-perm : (lines : List Bytes) → Perm (sort lines) lines

-- The lines for the logger.
pub data UpdateLine (E : Type 0) : Type 0 where
  updating : UpdateLine E
  worker_failed : UpdateError → UpdateLine E
  file_failed : E → UpdateLine E
  updated : UpdateLine E

-- The disk, `updateChecked` and the lines.
pub record Update (W E : Type 0) : Type 0 where
  pub files : W
  pub update_checked : Bool
  pub lines : List (UpdateLine E)

module _ {W E : Type 0} where
  -- The next call, unless the last one failed.
  abbrev pub then_disk : W × Option E → (W → W × Option E) → W × Option E
  then_disk (w, none) rest = rest w
  then_disk (w, some e) rest = (w, some e)

  module _ (disk : Disk W E) where
    -- The loop over the lines.
    unfoldable pub write_versions : Bytes → List Bytes → W → W × Option E
    write_versions path [] w = (w, none)
    write_versions path (line ∷ lines) w =
        then_disk (disk.write path line w)
          (λ w. then_disk (disk.write path (b'\n' ∷ []) w) (write_versions path lines))

    abbrev pub version_path : Bytes → Bytes
    version_path bin_dir = bin_dir ++ codes "/data/.version"

    abbrev pub checked : Update W E → W × Option E → Update W E
    checked u (w, none) = record u {
      files = w;
      update_checked = true;
      lines = u.lines ++ updated ∷ [];
    }
    checked u (w, some e) = record u { files = w; lines = u.lines ++ file_failed e ∷ [] }

    -- `updateGameData` behind `wg.Wait`, with what the workers sent.
    unfoldable pub finish_update : StringSorter → Bytes → Pool → Update W E → Update W E
    unfolding write_versions
    finish_update sorter bin_dir p u =
        checked (record u { lines = u.lines ++ map worker_failed p.errs })
          (then_disk (disk.create (version_path bin_dir) u.files)
            (write_versions (version_path bin_dir) (sorter.sort p.etags)))
