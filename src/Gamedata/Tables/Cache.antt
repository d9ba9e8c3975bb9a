-- ===== src/Gamedata/Tables/Cache.antt =====
-- A table is loaded once, and the regions that are accepted.
use rhine.Prelude.{bytes_eq, codes, some, true, Bytes, Option, ◌&&◌, ◌+◌, if◌then◌else◌, none, refl}
use rhine.Gamedata.Tables.{
  err_invalid_region, region_map, new, panics, waits, ok, err, returns, Tables, Call, Result,
  exists,
}
use rhine.Gamedata.Tables.Later.{Later}
use mathlib.Core.Path.{◌≡◌}
use mathlib.Core.Bool.{false, not, Bool}

-- A test of three keys, as a lookup.
three_keys :
    {A : Type 0} (p q r : Bytes) (rejected accepted : A) (a b c : Bool)
    → (if not a && not b && not c then rejected else accepted) ≡ (
        if exists (if a then some p else if b then some q else if c then some r else none)
        then accepted
        else rejected)
three_keys p q r x y true b c = refl
three_keys p q r x y false true c = refl
three_keys p q r x y false false true = refl
three_keys p q r x y false false false = refl

module _ {S I : Type 0} where
  -- A loader that returns has put a table under the region.
  abbrev IsLoaded : {A : Type 0} → (Tables S I → Bytes → Option A) → Bytes → Call S I Unit → Type 0
  IsLoaded tables region (returns u t) = exists (tables t region) ≡ true
  IsLoaded tables region waits = Unit
  IsLoaded tables region panics = Unit

  -- A call that returned a table: every later one returns it too, at once.
  abbrev pub IsCached :
      {A : Type 0}
      → (Tables S I → Call S I (Result (Option A)))
      → Call S I (Result (Option A))
      → Type 0
  IsCached {A} again (returns (ok found) t) =
      (table : A) × (found ≡ some table)
      × ((t' : Tables S I) → Later t t' → again t' ≡ returns (ok found) t')
  IsCached again _ = Unit

  -- `New` accepts exactly the keys of `regionMap`, and otherwise changes nothing; an accepted call
  -- waits for the lock on the files, and starts an update unless one was made.
  new-region_map :
      (region : Bytes) (t : Tables S I)
      → new region t ≡ (
          if exists (region_map region)
          then if t.file_locked
            then waits
            else if t.updated
            then returns (ok region) t
            else returns (ok region) (record t { file_locked = true; updates = t.updates + 1 })
          else returns (err err_invalid_region) t)
  unfolding new region_map
  new-region_map region t =
      three_keys (codes "en_US") (codes "ja_JP") (codes "ko_KR")
        (returns (err err_invalid_region) t) _ (bytes_eq region (codes "GL"))
        (bytes_eq region (codes "JP")) (bytes_eq region (codes "KR"))
