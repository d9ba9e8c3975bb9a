-- ===== src/Certs/Store.antt =====
use rhine.Prelude.{◌⊎◌, false, if◌then◌else◌, bytes_eq, none, some, ◌≡◌, ℕ, Option, Bool, Bytes}

-- `Fetch` of the certificate store (proxy/certstore.go) over a least recently used cache.

-- github.com/golang/groupcache/lru: `get` and `add` return the cache, which they change. A lookup
-- finds what the last `add` of the key put in, until the key is evicted; neither puts in a key on
-- its own; a key that was just added is there.
pub record Lru (V : Type 0) : Type 1 where
  pub Cache : Type 0
  pub empty : Cache
  pub get : Bytes → Cache → Cache × Option V
  pub add : Bytes → V → Cache → Cache
  pub entry : Cache → Bytes → Option V
  pub get-entry : (key : Bytes) (c : Cache) → (get key c).1 ≡ entry c key
  pub entry-get : (key key' : Bytes) (c : Cache) → entry (get key c).0 key' ≡ entry c key'
  pub entry-empty : (key : Bytes) → entry empty key ≡ none
  pub entry-add_self : (key : Bytes) (v : V) (c : Cache) → entry (add key v c) key ≡ some v
  pub entry-add_other :
      (key key' : Bytes) (v : V) (c : Cache)
      → bytes_eq key key' ≡ false
      → (entry (add key v c) key' ≡ entry c key') ⊎ (entry (add key v c) key' ≡ none)

-- What the generator returns: a certificate, or an error with what it returned for the certificate.
pub data Generated (V E : Type 0) : Type 0 where
  made : V → Generated V E
  failed : V → E → Generated V E

-- `Fetch`: the cache behind it, the certificate, the error, and how often the generator was called.
pub record Fetched (C V E : Type 0) : Type 0 where
  pub cache : C
  pub cert : V
  pub err : Option E
  pub generated : ℕ

module _ {V E : Type 0} (lru : Lru V) (is_nil : V → Bool) (hostname : Bytes)
    (gen : Generated V E) where
  -- On a miss, or on a nil certificate.
  abbrev pub fetch_missed : lru.Cache → Fetched lru.Cache V E
  fetch_missed c = elim gen [
    | made v ↦ record { cache = lru.add hostname v c; cert = v; err = none; generated = 1 }
    | failed v e ↦ record { cache = c; cert = v; err = some e; generated = 1 }
  ]

  abbrev pub fetch_found : lru.Cache → Option V → Fetched lru.Cache V E
  fetch_found c none = fetch_missed c
  fetch_found c (some v) =
      if is_nil v then fetch_missed c else record { cache = c; cert = v; err = none; generated = 0 }

  unfoldable pub fetch : lru.Cache → Fetched lru.Cache V E
  fetch c = let (c', found) = lru.get hostname c in fetch_found c' found
