-- ===== src/Gamedata/Tables/Later.antt =====
-- What calls of the package gamedata leave of the tables that are there.
use rhine.Gamedata.Tables.{
  checked, load_excel_json, new, region_name, put_table, panics, waits, and_then, ok, err, returns,
  Tables, Call, Result, get_info, get_stage_info, get_item_info, load_stage_table, load_item_table,
  exists,
}
use rhine.Prelude.{
  true, if◌then◌else◌, Bytes, Option, none, some, Bool, false, not, ◌&&◌, inl, inr, Bool-cases,
  bytes_eq, bytes_eq_iff, codes, ◌≡◌,
}
use mathlib.Core.Path.{ap, sym, subst, ◌∙◌}
use mathlib.Core.Bool.{true≢false}

put_table-keeps :
    {T : Type 0} (region : Bytes) (table : T) (tables : Bytes → Option T)
    → exists (tables region) ≡ false
    → (r : Bytes) (a : T) → tables r ≡ some a
    → put_table region table tables r ≡ some a
unfolding put_table
put_table-keeps region table tables e r a p = elim (Bool-cases (bytes_eq region r)) [
  | inr n ↦ rw n p
  | inl s ↦ absurd (true≢false (sym (ap exists (ap tables ((bytes_eq_iff region r).0 s) ∙ p)) ∙ e))
]

module _ {S I : Type 0} where
  -- The package's state some time after another: calls of `New`, `GetStageInfo` and `GetItemInfo`
  -- have returned, whatever the files were, and goroutines took and released the lock on the files.
  pub data Later (t : Tables S I) : Tables S I → Type 0 where
    now : Later t t
    called_new :
        {t' t'' : Tables S I} (region : Bytes) (r : Result Bytes)
        → Later t t'
        → new region t' ≡ returns r t''
        → Later t t''
    called_stage_info :
        {t' t'' : Tables S I} (file : Bytes → Option S) (own : Bytes) (region : Option Bytes)
        (r : Result (Option S))
        → Later t t'
        → get_stage_info file own region t' ≡ returns r t''
        → Later t t''
    called_item_info :
        {t' t'' : Tables S I} (file : Bytes → Option I) (own : Bytes) (region : Option Bytes)
        (r : Result (Option I))
        → Later t t'
        → get_item_info file own region t' ≡ returns r t''
        → Later t t''
    lock_turns :
        {t' : Tables S I} (locked : Bool)
        → Later t t'
        → Later t (record t' { file_locked = locked })

  -- Every table that was there is there.
  pub record Keeps (t t' : Tables S I) : Type 0 where
    pub stages :
        (region : Bytes) (s : S) → t.stage_tables region ≡ some s → t'.stage_tables region ≡ some s
    pub items :
        (region : Bytes) (i : I) → t.item_tables region ≡ some i → t'.item_tables region ≡ some i

  abbrev KeepsCall : {A : Type 0} → Tables S I → Call S I A → Type 0
  KeepsCall t (returns a t') = Keeps t t'
  KeepsCall t waits = Unit
  KeepsCall t panics = Unit

  new-Keeps : (region : Bytes) (t : Tables S I) → KeepsCall t (new region t)
  unfolding new
  new-Keeps region t =
      elim (Bool-cases (
        not (bytes_eq region (codes "GL"))
        && not (bytes_eq region (codes "JP"))
        && not (bytes_eq region (codes "KR")))) [
          | inl e ↦ rw e same
          | inr e ↦ elim (Bool-cases t.file_locked) [
            | inl l ↦ rw (e, l) tt
            | inr l ↦ elim (Bool-cases t.updated) [
              | inl u ↦ rw (e, l, u) (record { stages = λ r s p. p; items = λ r s p. p })
              | inr u ↦ rw (e, l, u) (record { stages = λ r s p. p; items = λ r s p. p })
            ]
          ]
        ]
    where
      same : Keeps t t
      same = record { stages = λ r s p. p; items = λ r s p. p }

  -- A loader that is called when its table is not there.
  load_excel_json-Keeps :
      {T : Type 0} (file : Bytes → Option T) (put : T → Tables S I) (region : Bytes)
      (t : Tables S I)
      → ((table : T) → Keeps t (put table))
      → KeepsCall t (load_excel_json file put region t)
  unfolding load_excel_json
  load_excel_json-Keeps {T = T} file put region t h = by t.file_locked
    where
      found : (o : Option T) → KeepsCall t (checked put o)
      found none = tt
      found (some table) = h table

      by : (b : Bool) → KeepsCall t (if b then waits else checked put (file region))
      by true = tt
      by false = found (file region)

  then-Keeps :
      {A : Type 0} (t : Tables S I) (answer : Tables S I → A) (c : Call S I Unit)
      → KeepsCall t c
      → KeepsCall t (and_then c (λ u t'. returns (answer t') t'))
  then-Keeps t answer (returns u t') k = k
  then-Keeps t answer waits k = tt
  then-Keeps t answer panics k = tt

  get_info-Keeps :
      {A : Type 0} (tables : Tables S I → Bytes → Option A)
      (load : Bytes → Tables S I → Call S I Unit) (region : Result Bytes) (t : Tables S I)
      → ((r : Bytes) → exists (tables t r) ≡ false → KeepsCall t (load r t))
      → KeepsCall t (get_info tables load region t)
  unfolding get_info
  get_info-Keeps tables load (err e) t h = record { stages = λ r s p. p; items = λ r s p. p }
  get_info-Keeps tables load (ok region) t h = elim (Bool-cases (exists (tables t region))) [
    | inl e ↦ rw e (record { stages = λ r s p. p; items = λ r s p. p })
    | inr e ↦ rw e (then-Keeps t (λ t'. ok (tables t' region)) (load region t) (h region e))
  ]

  get_stage_info-Keeps :
      (file : Bytes → Option S) (own : Bytes) (region : Option Bytes) (t : Tables S I)
      → KeepsCall t (get_stage_info file own region t)
  unfolding get_stage_info load_stage_table
  get_stage_info-Keeps file own region t =
      get_info-Keeps (λ t. t.stage_tables) (load_stage_table file) (region_name own region) t
        (λ r e.
          load_excel_json-Keeps file
            (λ table. record t { stage_tables = put_table r table t.stage_tables }) r t
            (λ table. record {
              stages = put_table-keeps r table t.stage_tables e;
              items = λ r i p. p;
            }))

  get_item_info-Keeps :
      (file : Bytes → Option I) (own : Bytes) (region : Option Bytes) (t : Tables S I)
      → KeepsCall t (get_item_info file own region t)
  unfolding get_item_info load_item_table
  get_item_info-Keeps file own region t =
      get_info-Keeps (λ t. t.item_tables) (load_item_table file) (region_name own region) t
        (λ r e.
          load_excel_json-Keeps file
            (λ table. record t { item_tables = put_table r table t.item_tables }) r t
            (λ table. record {
              stages = λ r s p. p;
              items = put_table-keeps r table t.item_tables e;
            }))

  Keeps-then : (t t' t'' : Tables S I) → Keeps t t' → Keeps t' t'' → Keeps t t''
  Keeps-then t t' t'' k k' = record {
    stages = λ r s p. k'.stages r s (k.stages r s p);
    items = λ r i p. k'.items r i (k.items r i p);
  }

  pub Later-Keeps : (t t' : Tables S I) → Later t t' → Keeps t t'
  Later-Keeps t t' now = record { stages = λ r s p. p; items = λ r i p. p }
  Later-Keeps t t'' (called_new {t'} region r l e) =
      Keeps-then t t' t'' (Later-Keeps t t' l) (subst (KeepsCall t') e (new-Keeps region t'))
  Later-Keeps t t'' (called_stage_info {t'} file own region r l e) =
      Keeps-then t t' t'' (Later-Keeps t t' l)
        (subst (KeepsCall t') e (get_stage_info-Keeps file own region t'))
  Later-Keeps t t'' (called_item_info {t'} file own region r l e) =
      Keeps-then t t' t'' (Later-Keeps t t' l)
        (subst (KeepsCall t') e (get_item_info-Keeps file own region t'))
  Later-Keeps t t'' (lock_turns {t'} locked l) =
      Keeps-then t t' t'' (Later-Keeps t t' l) (record { stages = λ r s p. p; items = λ r i p. p })
