-- ===== src/Gamedata/Save/Tests.antt =====
-- The end of an update on a small disk.
use mathlib.Core.List.Perm
use rhine.Gamedata.Pool.{
  Pool, Fetched, Reachable, close, finish, leave, send, receive, start, next, start_pool, response,
  saved, get_and_update, version_line,
}
use rhine.Gamedata.Complete.{etag_sent, GoesOn}
use rhine.Disk.Sample.{disk, file, disk-IsLawful, Files}
use rhine.Gamedata.Save.{
  StringSorter, Update, finish_update, version_path, updating, write_versions,
}
use rhine.Gamedata.Save.Next.{load_version_file-finish_update, AllFit, result_of}
use rhine.Gamedata.Version.{VerMap, load_version_file}
use rhine.Gamedata.Version.Round.{IsClean}
use rhine.Prelude.{false, refl, arith, none, ◌∷◌, ◌≡◌, codes, ℕ, Bytes, true, List, []}
use mathlib.Core.Path.{subst}
use mathlib.Core.Option.{some-injective}

abbrev no_etags : VerMap
no_etags path = []

-- Every file is new.
abbrev all_new : Bytes → Fetched
all_new path = response 200 (codes "W/\"1\"") saved

-- Two jobs, of which the second is answered first.
abbrev two : List Bytes
two = codes "a" ∷ codes "b" ∷ []

abbrev all_sent : Pool
all_sent = record (start_pool two) {
  to_send = [];
  closed = true;
  idle = 2;
  busy = codes "b" ∷ codes "a" ∷ [];
}

all_sent-Reachable : Reachable (result_of no_etags all_new) two all_sent
all_sent-Reachable =
    next
      (next
        (next
          (next (next start (send (codes "a") (codes "b" ∷ []) refl (omega arith)))
            (send (codes "b") [] refl (omega arith)))
          (close refl refl))
        (receive (codes "a") (codes "b" ∷ []) 3 refl refl))
      (receive (codes "b") [] 2 refl refl)

abbrev all_gone : Pool
all_gone = record all_sent {
  idle = 0;
  busy = [];
  etags = codes "b W/\"1\"" ∷ codes "a W/\"1\"" ∷ [];
}

all_gone-Reachable : Reachable (result_of no_etags all_new) two all_gone
unfolding get_and_update
all_gone-Reachable =
    next
      (next
        (next
          (next
            (next (next all_sent-Reachable (finish [] (codes "a" ∷ []) (codes "b") refl))
              (finish [] [] (codes "a") refl))
            (leave 3 refl refl refl))
          (leave 2 refl refl refl))
        (leave 1 refl refl refl))
      (leave 0 refl refl refl)

all_new-GoesOn : (path : Bytes) → GoesOn (result_of no_etags all_new path)
unfolding get_and_update
all_new-GoesOn path = etag_sent (version_line path (codes "W/\"1\""))

a-IsClean : IsClean (codes "a") (codes "W/\"1\"")
a-IsClean = record {
  path_words = (refl, tt);
  path_line = (refl, tt);
  etag_words = (refl, (refl, (refl, (refl, (refl, tt)))));
  etag_line = (refl, (refl, (refl, (refl, (refl, tt)))));
  etag_end = (refl, (refl, (refl, (refl, (refl, tt)))));
  fits = omega arith;
}

b-IsClean : IsClean (codes "b") (codes "W/\"1\"")
b-IsClean = record {
  path_words = (refl, tt);
  path_line = (refl, tt);
  etag_words = (refl, (refl, (refl, (refl, (refl, tt)))));
  etag_line = (refl, (refl, (refl, (refl, (refl, tt)))));
  etag_end = (refl, (refl, (refl, (refl, (refl, tt)))));
  fits = omega arith;
}

two-AllFit : AllFit no_etags all_new two
two-AllFit = (
  λ etag e. subst (IsClean (codes "a")) (some-injective (codes "W/\"1\"") etag e) a-IsClean,
  (λ etag e. subst (IsClean (codes "b")) (some-injective (codes "W/\"1\"") etag e) b-IsClean, tt),
)

abbrev unsorted : StringSorter
unsorted = record { sort = λ lines. lines; sort-perm = λ lines. Perm.refl lines }

abbrev bin_dir : Bytes
bin_dir = codes "/opt/rhine"

abbrev before_update : Update Files ℕ
before_update = record { files = λ path. none; update_checked = false; lines = updating ∷ [] }

load_version_file-finish_update_example :
    load_version_file
      (file
        (version_path (disk (λ path. true)) bin_dir)
        (finish_update (disk (λ path. true)) unsorted bin_dir all_gone before_update).files)
      (codes "b")
    ≡ codes "W/\"1\""
unfolding finish_update write_versions
load_version_file-finish_update_example =
    load_version_file-finish_update no_etags all_new (disk (λ path. true)) file unsorted bin_dir
      (codes "b") (codes "a" ∷ []) [] all_gone before_update (disk-IsLawful (λ path. true))
      all_new-GoesOn two-AllFit all_gone-Reachable (refl, (refl, refl)) refl refl
