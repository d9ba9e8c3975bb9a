-- ===== src/Filters/Pattern.antt =====
-- `GenerateFilter` (proxy/filters/filters.go), up to the compilation of the pattern.
use mathlib.Core.List.{append_assoc, append-nil}
use rhine.Prelude.{
  List, [], ◌∷◌, ◌++◌, ◌==◌, ◌≡◌, refl, ap, sym, ◌∙◌, Bytes, Bool, true, false, ℕ, codes,
}

-- What the loop adds for one host, by `fmt.Sprintf`.
abbrev pub alternative : Bytes → Bytes
alternative v = codes "(^.*" ++ v ++ codes ".*$)|"

unfoldable pub join_from : Bytes → List Bytes → Bytes
join_from ret [] = ret
join_from ret (v ∷ list) = join_from (ret ++ alternative v) list

-- `strings.TrimRight` of bars.
abbrev pub end_bar : Bool → ℕ → Bytes → Bytes
end_bar true c [] = []
end_bar _ c cs = c ∷ cs

unfoldable pub trim_bars : Bytes → Bytes
trim_bars [] = []
trim_bars (c ∷ cs) = end_bar (c == b'|') c (trim_bars cs)

unfoldable pub pattern_of : List Bytes → Bytes
unfolding join_from trim_bars
pattern_of list = trim_bars (join_from [] list)

-- `GenerateFilter`, with `regexp.MustCompile`.
abbrev pub generate_filter : {R : Type 0} → (Bytes → R) → List Bytes → R
generate_filter must_compile list = must_compile (pattern_of list)

-- The default list of hosts.
abbrev pub host_filter : {R : Type 0} → (Bytes → R) → R
host_filter must_compile = generate_filter must_compile (
    codes "android\\.bugly\\.qq\\.com"
    ∷ codes "sessions\\.bugsnag\\.com"
    ∷ codes "app\\.adjust\\.com"
    ∷ [])

-- One group for each host, with bars between them.
abbrev pub group : Bytes → Bytes
group v = codes "(^.*" ++ v ++ codes ".*$)"

unfoldable pub alternation : List Bytes → Bytes
alternation [] = []
alternation (v ∷ []) = group v
alternation (v ∷ w ∷ list) = group v ++ codes "|" ++ alternation (w ∷ list)

-- A text that ends with a parenthesis.
abbrev Closed : Bytes → Type 0
Closed text = (xs : Bytes) × (text ≡ xs ++ codes ")")

group-Closed : (v : Bytes) → Closed (group v)
group-Closed v = (
  codes "(^.*" ++ v ++ codes ".*$",
  sym (append_assoc (codes "(^.*" ++ v) (codes ".*$") (codes ")")),
)

alternation-Closed : (v : Bytes) (list : List Bytes) → Closed (alternation (v ∷ list))
unfolding alternation
alternation-Closed v [] = group-Closed v
alternation-Closed v (w ∷ list) =
    let (xs, e) = alternation-Closed w list in
    (
      group v ++ codes "|" ++ xs,
      ap (λ t. group v ++ codes "|" ++ t) e
          ∙ sym (append_assoc (group v ++ codes "|") xs (codes ")")),
    )

end_bar-closed :
    (b : Bool) (x : ℕ) (xs : Bytes) → end_bar b x (xs ++ codes ")") ≡ x ∷ (xs ++ codes ")")
end_bar-closed true x [] = refl
end_bar-closed true x (y ∷ xs) = refl
end_bar-closed false x xs = refl

trim_bars_closed : (xs : Bytes) → trim_bars (xs ++ codes ")" ++ codes "|") ≡ xs ++ codes ")"
unfolding trim_bars
trim_bars_closed [] = refl
trim_bars_closed (x ∷ xs) =
    ap (end_bar (x == b'|') x) (trim_bars_closed xs) ∙ end_bar-closed (x == b'|') x xs

joined : List Bytes → Bytes
joined [] = []
joined (v ∷ list) = alternative v ++ joined list

join_from-joined : (ret : Bytes) (list : List Bytes) → join_from ret list ≡ ret ++ joined list
unfolding join_from joined
join_from-joined ret [] = sym (append-nil ret)
join_from-joined ret (v ∷ list) =
    join_from-joined (ret ++ alternative v) list ∙ append_assoc ret (alternative v) (joined list)

alternative-group : (v : Bytes) → alternative v ≡ group v ++ codes "|"
alternative-group v = sym (append_assoc (codes "(^.*" ++ v) (codes ".*$)") (codes "|"))

joined-alternation :
    (v : Bytes) (list : List Bytes) → joined (v ∷ list) ≡ alternation (v ∷ list) ++ codes "|"
unfolding joined alternation
joined-alternation v [] = append-nil (alternative v) ∙ alternative-group v
joined-alternation v (w ∷ list) =
    ap (λ t. t ++ joined (w ∷ list)) (alternative-group v)
    ∙ ap (λ t. group v ++ codes "|" ++ t) (joined-alternation w list)
    ∙ sym (append_assoc (group v ++ codes "|") (alternation (w ∷ list)) (codes "|"))

-- `GenerateFilter` compiles the groups of the hosts in order, with one bar between each two of them
-- and none at the end; of an empty list it compiles the empty pattern.
pattern_of-alternation : (list : List Bytes) → pattern_of list ≡ alternation list
unfolding pattern_of join_from trim_bars alternation
pattern_of-alternation [] = refl
pattern_of-alternation (v ∷ list) =
    let (xs, e) = alternation-Closed v list in
    ap trim_bars
      (join_from-joined [] (v ∷ list) ∙ joined-alternation v list ∙ ap (λ t. t ++ codes "|") e)
    ∙ trim_bars_closed xs
    ∙ sym e
