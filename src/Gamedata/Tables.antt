-- ===== src/Gamedata/Tables.antt =====
-- `New`, `GetStageInfo` and `GetItemInfo` (utils/gamedata/gamedata.go): tables that are loaded once.
pub mod Cache
pub mod Later
use rhine.Prelude.{
  ◌+◌, true, ℕ, ◌&&◌, false, none, Bool, some, not, Bytes, Option, if◌then◌else◌, bytes_eq, codes,
}

pub data TableError : Type 0 where
  err_invalid_region : TableError

-- `regionMap`, with `none` for a key that it does not have.
unfoldable pub region_map : Bytes → Option Bytes
region_map region =
    if bytes_eq region (codes "GL")
    then some (codes "en_US")
    else if bytes_eq region (codes "JP")
    then some (codes "ja_JP")
    else if bytes_eq region (codes "KR")
    then some (codes "ko_KR")
    else none

abbrev pub exists : {A : Type 0} → Option A → Bool
exists none = false
exists (some _) = true

-- The package's state: the tables by region, the locks, and the goroutines of updates that have
-- taken over the lock on the files.
pub record Tables (S I : Type 0) : Type 0 where
  pub stage_tables : Bytes → Option S
  pub item_tables : Bytes → Option I
  pub file_locked : Bool
  pub updated : Bool
  pub updates : ℕ

-- A call returns, waits for the lock on the files, or panics in `utils.Check`.
pub data Call (S I A : Type 0) : Type 0 where
  returns : A → Tables S I → Call S I A
  waits : Call S I A
  panics : Call S I A

pub data Result (A : Type 0) : Type 0 where
  ok : A → Result A
  err : TableError → Result A

unfoldable pub put_table : {T : Type 0} → Bytes → T → (Bytes → Option T) → Bytes → Option T
put_table region t tables r = if bytes_eq region r then some t else tables r

-- The region of a call: the optional argument, if it is a key of the map, or the receiver's.
abbrev pub region_name : Bytes → Option Bytes → Result Bytes
region_name own none = ok own
region_name own (some region) =
    if exists (region_map region) then ok region else err err_invalid_region

module _ {S I : Type 0} where
  -- `New`: the receiver is its region. An update that is started keeps the lock.
  unfoldable pub new : Bytes → Tables S I → Call S I (Result Bytes)
  new region t =
      if not (bytes_eq region (codes "GL"))
        && not (bytes_eq region (codes "JP"))
        && not (bytes_eq region (codes "KR"))
      then returns (err err_invalid_region) t
      else if t.file_locked
      then waits
      else if t.updated
      then returns (ok region) t
      else returns (ok region) (record t { file_locked = true; updates = t.updates + 1 })

  abbrev pub checked : {T : Type 0} → (T → Tables S I) → Option T → Call S I Unit
  checked set none = panics
  checked set (some table) = returns tt (set table)

  -- `loadExcelJSON` and the decoding, with `utils.Check` on both; `set` stores the table.
  unfoldable pub load_excel_json :
      {T : Type 0} → (Bytes → Option T) → (T → Tables S I) → Bytes → Tables S I → Call S I Unit
  load_excel_json file set region t = if t.file_locked then waits else checked set (file region)

  -- `loadStageTable` and `loadItemTable`.
  unfoldable pub load_stage_table : (Bytes → Option S) → Bytes → Tables S I → Call S I Unit
  unfolding load_excel_json
  load_stage_table file region t =
      load_excel_json file
        (λ table. record t { stage_tables = put_table region table t.stage_tables }) region t

  unfoldable pub load_item_table : (Bytes → Option I) → Bytes → Tables S I → Call S I Unit
  unfolding load_excel_json
  load_item_table file region t =
      load_excel_json file
        (λ table. record t { item_tables = put_table region table t.item_tables }) region t

  abbrev pub and_then : {A B : Type 0} → Call S I A → (A → Tables S I → Call S I B) → Call S I B
  and_then (returns a t) rest = rest a t
  and_then waits rest = waits
  and_then panics rest = panics

  -- The body that `GetStageInfo` and `GetItemInfo` share, by the map of the tables and its loader;
  -- the lock on the state is held throughout. A table that is not there is nil.
  unfoldable pub get_info :
      {A : Type 0}
      → (Tables S I → Bytes → Option A)
      → (Bytes → Tables S I → Call S I Unit)
      → Result Bytes
      → Tables S I
      → Call S I (Result (Option A))
  get_info tables load (err e) t = returns (err e) t
  get_info tables load (ok region) t =
      if exists (tables t region)
      then returns (ok (tables t region)) t
      else and_then (load region t) (λ u t'. returns (ok (tables t' region)) t')

  unfoldable pub get_stage_info :
      (Bytes → Option S) → Bytes → Option Bytes → Tables S I → Call S I (Result (Option S))
  unfolding get_info load_stage_table
  get_stage_info file own region t =
      get_info (λ t. t.stage_tables) (load_stage_table file) (region_name own region) t

  unfoldable pub get_item_info :
      (Bytes → Option I) → Bytes → Option Bytes → Tables S I → Call S I (Result (Option I))
  unfolding get_info load_item_table
  get_item_info file own region t =
      get_info (λ t. t.item_tables) (load_item_table file) (region_name own region) t
