-- ===== src/Certs/Fetches.antt =====
-- Whose certificates the store gives.
use rhine.Certs.Store.{Lru, Generated, made, failed, Fetched, fetch, fetch_found, fetch_missed}
use mathlib.Core.Path.{subst}
use rhine.Prelude.{
  bytes_eq_iff, true, inr, sym, inl, bytes_eq, if◌then◌else◌, refl, Option, none, Bool-cases, ◌∙◌,
  some, false, ◌≡◌, Bytes, Bool,
}
use mathlib.Core.Option.{some-injective, none-ne-some, some-ne-none}

-- `Made key v` says that `v` was generated for the host `key`.
module _ {V : Type 0} (lru : Lru V) (Made : Bytes → V → Type 0) where
  abbrev pub AllMade : lru.Cache → Type 0
  AllMade c = (key : Bytes) (v : V) → lru.entry c key ≡ some v → Made key v

  add-AllMade :
      (hostname : Bytes) (v : V) (c : lru.Cache)
      → Made hostname v
      → AllMade c
      → AllMade (lru.add hostname v c)
  add-AllMade hostname v c h all key w e = elim (Bool-cases (bytes_eq hostname key)) [
    | inl same ↦
        let one : hostname ≡ key = (bytes_eq_iff hostname key).0 same in
        let there : some v ≡ some w =
          sym (lru.entry-add_self hostname v c)
          ∙ (subst (λ k. lru.entry (lru.add hostname v c) k ≡ some w) (sym one) e) in
        subst (λ k. Made k w) one (subst (λ x. Made hostname x) (some-injective v w there) h)
    | inr other ↦ elim (lru.entry-add_other hostname key v c other) [
      | inl stays ↦ all key w (sym stays ∙ e)
      | inr gone ↦ absurd (none-ne-some w (sym gone ∙ e))
    ]
  ]

module _ {V E : Type 0} (lru : Lru V) (is_nil : V → Bool) where
  -- What `Fetch` of a host gives at once, without another certificate.
  abbrev pub GivesAgain : Bytes → Fetched lru.Cache V E → Type 0
  GivesAgain hostname f =
      (gen : Generated V E)
      → ((fetch lru is_nil hostname gen f.cache).cert ≡ f.cert)
        × ((fetch lru is_nil hostname gen f.cache).generated ≡ 0)

  kept :
      (hostname : Bytes) (v : V) (c : lru.Cache)
      → is_nil v ≡ false
      → lru.entry c hostname ≡ some v
      → (gen : Generated V E)
      → ((fetch lru is_nil hostname gen c).cert ≡ v)
        × ((fetch lru is_nil hostname gen c).generated ≡ 0)
  unfolding fetch
  kept hostname v c n e gen =
      let found : (lru.get hostname c).1 ≡ some v = lru.get-entry hostname c ∙ e in
      rw (found, n) (refl, refl)

  missed-GivesAgain :
      (hostname : Bytes) (gen : Generated V E) (c : lru.Cache)
      → (fetch_missed lru is_nil hostname gen c).err ≡ none
      → is_nil (fetch_missed lru is_nil hostname gen c).cert ≡ false
      → GivesAgain hostname (fetch_missed lru is_nil hostname gen c)
  missed-GivesAgain hostname (made v) c e n =
      kept hostname v (lru.add hostname v c) n (lru.entry-add_self hostname v c)
  missed-GivesAgain hostname (failed v x) c e n = absurd (some-ne-none x e)

  found-GivesAgain :
      (hostname : Bytes) (gen : Generated V E) (c : lru.Cache) (found : Option V)
      → lru.entry c hostname ≡ found
      → (fetch_found lru is_nil hostname gen c found).err ≡ none
      → is_nil (fetch_found lru is_nil hostname gen c found).cert ≡ false
      → GivesAgain hostname (fetch_found lru is_nil hostname gen c found)
  found-GivesAgain hostname gen c none f e n = missed-GivesAgain hostname gen c e n
  found-GivesAgain hostname gen c (some v) f e n = by_nil (is_nil v) refl e n
    where
      by_nil :
          (b : Bool)
          → is_nil v ≡ b
          → (if b
              then fetch_missed lru is_nil hostname gen c
              else record { cache = c; cert = v; err = none; generated = 0 }).err
            ≡ none
          → is_nil
              (if b
                then fetch_missed lru is_nil hostname gen c
                else record { cache = c; cert = v; err = none; generated = 0 }).cert
            ≡ false
          → GivesAgain hostname (
              if b
              then fetch_missed lru is_nil hostname gen c
              else record { cache = c; cert = v; err = none; generated = 0 })
      by_nil true same e n = missed-GivesAgain hostname gen c e n
      by_nil false same e n = kept hostname v c same f

  -- A host whose certificate was fetched without an error, and is not nil, gets the same one when it
  -- is fetched next, and no other is generated.
  fetch-GivesAgain :
      (hostname : Bytes) (gen : Generated V E) (c : lru.Cache)
      → (fetch lru is_nil hostname gen c).err ≡ none
      → is_nil (fetch lru is_nil hostname gen c).cert ≡ false
      → GivesAgain hostname (fetch lru is_nil hostname gen c)
  unfolding fetch
  fetch-GivesAgain hostname gen c e n =
      found-GivesAgain hostname gen (lru.get hostname c).0 (lru.get hostname c).1
        (lru.entry-get hostname hostname c ∙ sym (lru.get-entry hostname c)) e n

  module _ (Made : Bytes → V → Type 0) where
    abbrev pub IsMade : Bytes → Generated V E → Type 0
    IsMade hostname (made v) = Made hostname v
    IsMade hostname (failed v e) = Unit

    -- The certificate that is returned with no error, and all those that are kept.
    abbrev pub IsOwn : Bytes → V → Option E → Type 0
    IsOwn hostname v none = Made hostname v
    IsOwn hostname v (some e) = Unit

    abbrev pub KeepsOwn : Bytes → Fetched lru.Cache V E → Type 0
    KeepsOwn hostname f = IsOwn hostname f.cert f.err × AllMade lru Made f.cache

    missed-KeepsOwn :
        (hostname : Bytes) (gen : Generated V E) (c : lru.Cache)
        → IsMade hostname gen
        → AllMade lru Made c
        → KeepsOwn hostname (fetch_missed lru is_nil hostname gen c)
    missed-KeepsOwn hostname (made v) c h all = (h, add-AllMade lru Made hostname v c h all)
    missed-KeepsOwn hostname (failed v e) c h all = (tt, all)

    found-KeepsOwn :
        (hostname : Bytes) (gen : Generated V E) (c : lru.Cache) (found : Option V)
        → lru.entry c hostname ≡ found
        → IsMade hostname gen
        → AllMade lru Made c
        → KeepsOwn hostname (fetch_found lru is_nil hostname gen c found)
    found-KeepsOwn hostname gen c none f h all = missed-KeepsOwn hostname gen c h all
    found-KeepsOwn hostname gen c (some v) f h all = elim (Bool-cases (is_nil v)) [
      | inl n ↦ rw n (missed-KeepsOwn hostname gen c h all)
      | inr n ↦ rw n (all hostname v f, all)
    ]

    -- If all the certificates in the cache were generated for their hosts, and the generator makes
    -- one for the host if it makes one, then the one that `Fetch` returns with no error was
    -- generated for the host, and the cache still holds none under another's name.
    pub fetch-KeepsOwn :
        (hostname : Bytes) (gen : Generated V E) (c : lru.Cache)
        → IsMade hostname gen
        → AllMade lru Made c
        → KeepsOwn hostname (fetch lru is_nil hostname gen c)
    unfolding fetch
    fetch-KeepsOwn hostname gen c h all =
        found-KeepsOwn hostname gen (lru.get hostname c).0 (lru.get hostname c).1
          (lru.entry-get hostname hostname c ∙ sym (lru.get-entry hostname c)) h
          (λ key v e. all key v (sym (lru.entry-get hostname key c) ∙ e))
