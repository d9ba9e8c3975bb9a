-- ===== src/Proxy/Host.antt =====
-- The hosts of the game's servers (`gameHostMatcher` of proxy/handler.go, `regionMap` of
-- proxy/proxy.go), and the keys of the users.
use rhine.Prelude.{
  refl, bytes_eq_iff, inr, ◌∙◌, Bool-cases, inl, ◌⊎◌, arith, false, drop, none, length, ◌||◌, some,
  leb, ◌==◌, [], ◌∷◌, Option, ◌++◌, ◌≡◌, Bool, Bytes, codes, bytes_eq, if◌then◌else◌,
}
use mathlib.Core.Path.{ap, sym, subst}
use mathlib.Core.Bool.{true, false≢true}

-- `text` behind a prefix, if it has it.
unfoldable pub behind : Bytes → Bytes → Option Bytes
behind [] text = some text
behind (p ∷ ps) (c ∷ cs) = if c == p then behind ps cs else none
behind (p ∷ ps) [] = none

-- `:8?443$`.
unfoldable pub is_port : Bytes → Bool
is_port rest = bytes_eq rest (codes ":443") || bytes_eq rest (codes ":8443")

-- The rest of the pattern behind one alternative of `(jp|kr|global)`.
unfoldable pub is_end : Bytes → Bytes → Bool
unfolding behind is_port
is_end tld text = elim (behind tld text) [ none ↦ false | some rest ↦ is_port rest ]

-- `^gs\.arknights\.(jp|kr|global):8?443$`.
unfoldable pub is_game_host : Bytes → Bool
unfolding is_end behind
is_game_host host = elim (behind (codes "gs.arknights.") host) [
  | none ↦ false
  | some rest ↦ is_end (codes "jp") rest || is_end (codes "kr") rest || is_end (codes "global") rest
]

-- `URL.Hostname`: the host up to a port.
unfoldable pub hostname : Bytes → Bytes
hostname [] = []
hostname (c ∷ cs) = if c == b':' then [] else c ∷ hostname cs

-- `regionMap`; a key that is not there gives the empty string.
unfoldable pub region_map : Bytes → Bytes
region_map tld =
    if bytes_eq tld (codes "global")
    then codes "GL"
    else if bytes_eq tld (codes "jp")
    then codes "JP"
    else if bytes_eq tld (codes "kr")
    then codes "KR"
    else []

-- `regionMap[req.URL.Hostname()[13:]]`, with `none` where the slice is out of range.
unfoldable pub region_of : Bytes → Option Bytes
unfolding hostname region_map
region_of host =
    if leb 13 (length (hostname host)) then some (region_map (drop 13 (hostname host))) else none

-- The regions that the program has.
pub data IsRegion : Bytes → Type 0 where
  gl : IsRegion (codes "GL")
  jp : IsRegion (codes "JP")
  kr : IsRegion (codes "KR")

-- `region + "_" + UID`.
abbrev pub user_key : Bytes → Bytes → Bytes
user_key region uid = region ++ (b'_' ∷ uid)

behind_eq : (p text rest : Bytes) → behind p text ≡ some rest → text ≡ p ++ rest
unfolding behind
behind_eq [] text rest e = cc
behind_eq (p ∷ ps) [] rest e = cc
behind_eq (p ∷ ps) (c ∷ cs) rest e = ground (arith, behind_eq ps cs rest)

is_port_cases :
    (rest : Bytes) → is_port rest ≡ true → (rest ≡ codes ":443") ⊎ (rest ≡ codes ":8443")
unfolding is_port
is_port_cases rest e = elim (Bool-cases (bytes_eq rest (codes ":443"))) [
  | inl h ↦ inl ((bytes_eq_iff rest (codes ":443")).0 h)
  | inr h ↦
      inr ((bytes_eq_iff rest (codes ":8443")).0 (or_right (bytes_eq rest (codes ":443")) _ h e))
]
  where
    or_right : (a b : Bool) → a ≡ false → (a || b) ≡ true → b ≡ true
    or_right a b h e = ground arith

is_end_cases :
    (tld text : Bytes)
    → is_end tld text ≡ true
    → (text ≡ tld ++ codes ":443") ⊎ (text ≡ tld ++ codes ":8443")
unfolding is_end
is_end_cases tld text e = found (behind tld text) refl e
  where
    found :
        (o : Option Bytes)
        → behind tld text ≡ o
        → (elim o [ none ↦ false | some rest ↦ is_port rest ]) ≡ true
        → (text ≡ tld ++ codes ":443") ⊎ (text ≡ tld ++ codes ":8443")
    found none b h = absurd (false≢true h)
    found (some rest) b h = elim (is_port_cases rest h) [
      | inl r ↦ inl (behind_eq tld text rest b ∙ ap (λ x. tld ++ x) r)
      | inr r ↦ inr (behind_eq tld text rest b ∙ ap (λ x. tld ++ x) r)
    ]

-- The host is the one with this top level domain, with either port.
abbrev Ends : Bytes → Bytes → Type 0
Ends tld rest = (rest ≡ tld ++ codes ":443") ⊎ (rest ≡ tld ++ codes ":8443")

abbrev GameRest : Bytes → Type 0
GameRest rest = Ends (codes "jp") rest ⊎ (Ends (codes "kr") rest ⊎ Ends (codes "global") rest)

or_cases : (a b c : Bool) → (a || b || c) ≡ true → (a ≡ true) ⊎ ((b ≡ true) ⊎ (c ≡ true))
or_cases true b c e = inl refl
or_cases false true c e = inr (inl refl)
or_cases false false c e = inr (inr e)

is_game_host_cases :
    (host : Bytes)
    → is_game_host host ≡ true
    → (rest : Bytes) × (host ≡ codes "gs.arknights." ++ rest) × GameRest rest
unfolding is_game_host
is_game_host_cases host e = found (behind (codes "gs.arknights.") host) refl e
  where
    found :
        (o : Option Bytes)
        → behind (codes "gs.arknights.") host ≡ o
        → (elim o [
          | none ↦ false
          | some rest ↦
              is_end (codes "jp") rest || is_end (codes "kr") rest || is_end (codes "global") rest
        ])
          ≡ true
        → (rest : Bytes) × (host ≡ codes "gs.arknights." ++ rest) × GameRest rest
    found none b h = absurd (false≢true h)
    found (some rest) b h = (
      rest,
      behind_eq (codes "gs.arknights.") host rest b,
      elim (or_cases (is_end (codes "jp") rest) (is_end (codes "kr") rest)
          (is_end (codes "global") rest) h) [
            | inl j ↦ inl (is_end_cases (codes "jp") rest j)
            | inr (inl k) ↦ inr (inl (is_end_cases (codes "kr") rest k))
            | inr (inr g) ↦ inr (inr (is_end_cases (codes "global") rest g))
          ],
    )

-- A request that the matcher takes for game traffic has a region: the slice of its host's name is
-- in range, and the map of regions has the key.
pub region_of-IsRegion :
    (host : Bytes)
    → is_game_host host ≡ true
    → (region : Bytes) × (region_of host ≡ some region) × IsRegion region
unfolding region_of hostname region_map bytes_eq
region_of-IsRegion host e =
    let (rest, h, cases) = is_game_host_cases host e in
    subst (λ host. (region : Bytes) × (region_of host ≡ some region) × IsRegion region) (sym h)
      (elim cases [
        | inl (inl r) ↦ rw r (codes "JP", refl, jp)
        | inl (inr r) ↦ rw r (codes "JP", refl, jp)
        | inr (inl (inl r)) ↦ rw r (codes "KR", refl, kr)
        | inr (inl (inr r)) ↦ rw r (codes "KR", refl, kr)
        | inr (inr (inl r)) ↦ rw r (codes "GL", refl, gl)
        | inr (inr (inr r)) ↦ rw r (codes "GL", refl, gl)
      ])
