-- ===== src/Disk/Sample.antt =====
-- A small disk, whose files are a function of the path.
use rhine.Prelude.{
  bytes_eq_iff, refl, none, some, inr, ◌++◌, inl, Bool-cases, true, false, [], ◌≡◌, ℕ,
  if◌then◌else◌, Option, bytes_eq, Bool, ◌≢◌, Bytes,
}
use rhine.Disk.{Disk, IsLawful, present, not_exist}
use mathlib.Core.Path.{subst}
use mathlib.Core.Option

abbrev pub Files : Type 0
Files = Bytes → Option Bytes

abbrev pub file : Bytes → Files → Option Bytes
file p w = w p

abbrev pub created : Bytes → Files → Files
created p w = λ q. if bytes_eq p q then some [] else w q

abbrev pub written : Bytes → Bytes → Files → Files
written p data_in w = λ q. if bytes_eq p q then Option.map (λ c. c ++ data_in) (w q) else w q

-- A disk that writes to the paths it accepts.
abbrev pub disk : (Bytes → Bool) → Disk Files ℕ
disk accepts = record {
  stat = λ p w. elim (w p) [ none ↦ not_exist | some c ↦ present ];
  create = λ p w. (created p w, none);
  write = λ p data_in w. if accepts p then (written p data_in w, none) else (w, some 28);
  open_file = λ p w. elim (w p) [ none ↦ some 2 | some c ↦ none ];
  read_all = λ p w. elim (w p) [ none ↦ inl 2 | some c ↦ inr c ];
}

same : (p : Bytes) → bytes_eq p p ≡ true
same p = (bytes_eq_iff p p).1 refl

other : (p q : Bytes) → p ≢ q → bytes_eq p q ≡ false
other p q h = elim (Bool-cases (bytes_eq p q)) [
  | inl e ↦ absurd (h ((bytes_eq_iff p q).0 e))
  | inr e ↦ e
]

-- A write that is accepted has this effect.
abbrev Holds : Bytes → Bytes → Files × Option ℕ → Type 0
Holds p c (w, none) = w p ≡ some c
Holds p c (w, some e) = Unit

written-same :
    (p c data_in : Bytes) (w : Files) → w p ≡ some c → written p data_in w p ≡ some (c ++ data_in)
written-same p c data_in w f = rw (same p, f) refl

stat-same :
    (accepts : Bytes → Bool) (p c : Bytes) (w : Files)
    → w p ≡ some c
    → (disk accepts).stat p w ≡ present
stat-same accepts p c w f = rw f refl

pub disk-IsLawful : (accepts : Bytes → Bool) → IsLawful (disk accepts) file
disk-IsLawful accepts = record {
  stat-file = stat-same accepts;
  open_file-file = λ p c w e. rw e refl;
  read_all-file = λ p c w e. rw e refl;
  create-file = λ p w w' e. subst (λ (x : Files × Option ℕ). x.0 p ≡ some []) e (rw (same p) refl);
  write-file = λ p c data_in w w' f e.
      subst (Holds p (c ++ data_in)) e
        (elim (Bool-cases (accepts p)) [ inl a ↦ rw (a, same p, f) refl | inr a ↦ rw a tt ]);
  write-stat = λ p c data_in w f. elim (Bool-cases (accepts p)) [
    | inl a ↦
        rw a
          (stat-same accepts p (c ++ data_in) (written p data_in w) (written-same p c data_in w f))
    | inr a ↦ rw (a, f) refl
  ];
  create-other = λ p q w h. rw (other p q h) refl;
  write-other = λ p q data_in w h. elim (Bool-cases (accepts p)) [
    | inl a ↦ rw (a, other p q h) refl
    | inr a ↦ rw a refl
  ];
}
