-- ===== src/Certs/Tests.antt =====
-- The theorems on the certificate store at small inputs.
use rhine.Prelude.{
  bytes_eq_iff, Bytes, Option, none, some, ◌≡◌, bytes_eq, if◌then◌else◌, true, false, Bool, ℕ,
  codes, refl, inl,
}
use rhine.Certs.Store.{Lru, made, fetch}
use rhine.Certs.Fetches.{fetch-KeepsOwn, KeepsOwn}
use mathlib.Core.Option.{none-ne-some}

-- A cache that evicts nothing.
abbrev put : Bytes → ℕ → (Bytes → Option ℕ) → Bytes → Option ℕ
put key v c key' = if bytes_eq key key' then some v else c key'

abbrev put_self : (key : Bytes) (v : ℕ) (c : Bytes → Option ℕ) → put key v c key ≡ some v
put_self key v c = rw ((bytes_eq_iff key key).1 refl) refl

abbrev all_of : Lru ℕ
all_of = record {
  Cache = Bytes → Option ℕ;
  empty = λ key. none;
  get = λ key c. (c, c key);
  add = put;
  entry = λ c. c;
  get-entry = λ key c. refl;
  entry-get = λ key key' c. refl;
  entry-empty = λ key. refl;
  entry-add_self = put_self;
  entry-add_other = λ key key' v c other. inl (rw other refl);
}

abbrev host : Bytes
host = codes "gs.arknights.jp"

abbrev never_nil : ℕ → Bool
never_nil v = false

-- The certificate of the one host is 15.
abbrev Made : Bytes → ℕ → Type 0
Made key v = (bytes_eq key host ≡ true) × (v ≡ 15)

fetch-KeepsOwn_example :
    KeepsOwn {E = Unit} all_of never_nil Made host
      (fetch all_of never_nil host (made 15) all_of.empty)
unfolding bytes_eq
fetch-KeepsOwn_example =
    fetch-KeepsOwn all_of never_nil Made host (made 15) all_of.empty (refl, refl)
      (λ key v e. absurd (none-ne-some v e))
