-- ===== src/Gamedata/Save/Etags.antt =====
-- Which etag stands for a file behind an update, and what of it is sent and loaded.
use rhine.Gamedata.Pool.{
  get_and_update, Fetched, no_request, no_response, response, Saving, saved, read_fails,
  folder_fails, create_fails, minify_fails, version_line, is_empty, save_body,
}
use rhine.Gamedata.Save.Tally.{hit, tally, sends}
use rhine.Gamedata.Version.{VerMap, put}
use rhine.Gamedata.Version.Round.{line_of, entries_map}
use mathlib.Core.List.{Memᴰ}
use rhine.Prelude.{
  ◌∙◌, ap, sym, suc, ◌==◌, ◌&&◌, inr, ◌∷◌, inl, not, arith, false, bytes_eq, Bool-cases, ◌⊎◌,
  bytes_eq_iff, map, if◌then◌else◌, refl, ◌≡◌, some, ℕ, none, List, ◌<◌, [], Option, Bytes,
}
use mathlib.Core.Bool.{true≢false}
use Prim.Native.Nat.{zero}
use mathlib.Core.List.Memᴰ

-- The etag that stands for a file behind an update: the old one, if the server says that it did not
-- change, the new one, if the file was saved, and none behind a failure.
abbrev pub etag_saved : Bytes → Saving → Option Bytes
etag_saved etag saved = some etag
etag_saved etag _ = none

abbrev pub etag_after : Bytes → Fetched → Option Bytes
etag_after etag no_request = none
etag_after etag no_response = none
etag_after etag (response status header saving) =
    if not (is_empty etag) && status == 304
    then some etag
    else if status == 200
    then etag_saved header saving
    else none

abbrev pub or_empty : Option Bytes → Bytes
or_empty none = []
or_empty (some etag) = etag

pub hit_self : (line : Bytes) → hit line line ≡ 1
unfolding hit
hit_self line = rw ((bytes_eq_iff line line).1 refl) refl

hit-miss : (line l : Bytes) → bytes_eq l line ≡ false → hit line l ≡ 0
unfolding hit
hit-miss line l e = rw e refl

pub hit-ne : (line l : Bytes) → 0 < hit line l → l ≡ line
hit-ne line l h = elim (Bool-cases (bytes_eq l line)) [
  | inl e ↦ (bytes_eq_iff l line).0 e
  | inr e ↦ absurd (omega (arith, h, hit-miss line l e))
]

-- What a path sends of a line.
abbrev pub shows : Bytes → Bytes → Option Bytes → ℕ
shows line path none = 0
shows line path (some etag) = hit line (version_line path etag)

saved-shows :
    (line path etag : Bytes) (saving : Saving)
    → sends line (save_body path etag saving) ≡ shows line path (etag_saved etag saving)
saved-shows line path etag read_fails = refl
saved-shows line path etag folder_fails = refl
saved-shows line path etag create_fails = refl
saved-shows line path etag minify_fails = refl
saved-shows line path etag saved = refl

pub sends-shows :
    (line path etag : Bytes) (f : Fetched)
    → sends line (get_and_update path etag f) ≡ shows line path (etag_after etag f)
unfolding get_and_update
sends-shows line path etag no_request = refl
sends-shows line path etag no_response = refl
sends-shows line path etag (response status header saving) =
    elim (Bool-cases (not (is_empty etag) && status == 304)) [
      | inl e ↦ rw e refl
      | inr e ↦ elim (Bool-cases (status == 200)) [
        | inl s ↦ rw (e, s) (saved-shows line path header saving)
        | inr s ↦ rw (e, s) refl
      ]
    ]

-- The map of entries at a path, if every entry for it has the same etag.
pub entries_map-same :
    (p e : Bytes) (entries : List (Bytes × Bytes)) (m : VerMap)
    → ((x : Bytes × Bytes) → Memᴰ x entries → x.0 ≡ p → x.1 ≡ e)
    → (m p ≡ e) ⊎ Memᴰ (p, e) entries
    → entries_map entries m p ≡ e
unfolding entries_map put
entries_map-same p e [] m h (inl n) = n
entries_map-same p e [] m h (inr n) = absurd (Memᴰ.not-nil n)
entries_map-same p e ((path, etag) ∷ entries) m h n =
    entries_map-same p e entries (put path etag m) (λ x i. h x (Memᴰ.tail i))
      (elim (Bool-cases (bytes_eq path p)) [
        | inl q ↦ inl (rw q (h (path, etag) (Memᴰ.head refl) ((bytes_eq_iff path p).0 q)))
        | inr q ↦ here q n
      ])
  where
    here :
        bytes_eq path p ≡ false
        → (m p ≡ e) ⊎ Memᴰ (p, e) ((path, etag) ∷ entries)
        → (put path etag m p ≡ e) ⊎ Memᴰ (p, e) entries
    here q (inl k) = inl (rw q k)
    here q (inr (Memᴰ.head k)) =
        absurd (true≢false (sym ((bytes_eq_iff path p).1 (ap (λ x. x.0) (sym k))) ∙ q))
    here q (inr (Memᴰ.tail k)) = inr k

pub zero_or : (n : ℕ) → (n ≡ 0) ⊎ (0 < n)
zero_or zero = inl refl
zero_or (suc n) = inr (omega arith)

pub tally-Memᴰ :
    (line : Bytes) (entries : List (Bytes × Bytes))
    → 0 < tally line (map line_of entries)
    → (x : Bytes × Bytes) × (Memᴰ x entries × (line_of x ≡ line))
unfolding tally
tally-Memᴰ line [] h = absurd (omega (arith, h))
tally-Memᴰ line (x ∷ entries) h = elim (zero_or (hit line (line_of x))) [
  | inl z ↦ let (y, (i, e)) = tally-Memᴰ line entries (omega (arith, h, z)) in (y, (Memᴰ.tail i, e))
  | inr p ↦ (x, (Memᴰ.head refl, hit-ne line (line_of x) p))
]
