-- ===== src/Authority/Restart.antt =====
-- A start after a start: the certificate authority stays.
use rhine.Disk.{Disk, IsLawful, present}
use rhine.Authority.Generate.{
  Crypto, Draw, Generated, generated, generate_error, panics_cert, panics_key, generate_ca,
}
use rhine.Authority.Generate.Files.{Leaves, generate_ca-Leaves, Made, made}
use rhine.Authority.Load.{
  Tls, Globals, KeyPair, Loaded, loaded, load_error, no_certificate, load_ca, opened, with_files,
  with_pair, first_of, with_leaf,
}
use rhine.Authority.Start.{
  StartLine, Started, starts, start_panics, start_ca, must_generate, load_or_panic, after_load,
  after_generate, cert_name, key_name,
}
use mathlib.Core.List.{append_cancel_left}
use rhine.Prelude.{
  bytes_eq, ap, sym, inr, refl, false, ◌≢◌, some, inl, Bool-cases, ◌∷◌, List, ◌⊎◌, Option, [], ◌++◌,
  ◌≡◌, Bytes, none,
}
use mathlib.Core.Path.{subst}
use mathlib.Core.Bool.{false≢true}

module _ {K C T E : Type 0} where
  -- The second load gives what the first one gave.
  abbrev Follows : Loaded K C T E → Loaded K C T E → Type 0
  Follows (loaded g) l = l ≡ loaded g
  Follows (load_error e g) l = Unit
  Follows (no_certificate g) l = Unit

  module _ (parse_certificate : Bytes → E ⊎ C) (tls : Tls K C T E) (g g' : Globals K C T) where
    with_leaf-Follows :
        (ca : KeyPair K C) (r : E ⊎ C)
        → Follows (with_leaf parse_certificate tls ca g r) (with_leaf parse_certificate tls ca g' r)
    with_leaf-Follows ca (inl e) = tt
    with_leaf-Follows ca (inr leaf) = refl

    first_of-Follows :
        (ca : KeyPair K C) (ders : List Bytes)
        → Follows
            (first_of parse_certificate tls ca g ders)
            (first_of parse_certificate tls ca g' ders)
    first_of-Follows ca [] = tt
    first_of-Follows ca (der ∷ ders) = with_leaf-Follows ca (parse_certificate der)

    with_pair-Follows :
        (r : E ⊎ KeyPair K C)
        → Follows (with_pair parse_certificate tls g r) (with_pair parse_certificate tls g' r)
    with_pair-Follows (inl e) = tt
    with_pair-Follows (inr ca) = first_of-Follows ca ca.certificate

    with_files-Follows :
        (cert key : E ⊎ Bytes)
        → Follows
            (with_files parse_certificate tls g cert key)
            (with_files parse_certificate tls g' cert key)
    with_files-Follows (inl e) key = tt
    with_files-Follows (inr cert) (inl e) = tt
    with_files-Follows (inr cert) (inr key) = with_pair-Follows (tls.x509_key_pair cert key)

    module _ {W : Type 0} (disk : Disk W E) where
      opened-Follows :
          (cert_path key_path : Bytes) (w : W) (a b : Option E)
          → Follows
              (opened parse_certificate tls disk cert_path key_path w g a b)
              (opened parse_certificate tls disk cert_path key_path w g' a b)
      opened-Follows cert_path key_path w (some e) b = tt
      opened-Follows cert_path key_path w none (some e) = tt
      opened-Follows cert_path key_path w none none =
          with_files-Follows (disk.read_all cert_path w) (disk.read_all key_path w)

      load_ca-Follows :
          (bin_dir cert_path key_path : Bytes) (w : W)
          → Follows
              (load_ca parse_certificate tls disk bin_dir cert_path key_path w g)
              (load_ca parse_certificate tls disk bin_dir cert_path key_path w g')
      unfolding load_ca
      load_ca-Follows bin_dir cert_path key_path w =
          opened-Follows (bin_dir ++ cert_path) (bin_dir ++ key_path) w
            (disk.open_file (bin_dir ++ cert_path) w) (disk.open_file (bin_dir ++ key_path) w)

module _ {Time K P C T E W : Type 0} (crypto : Crypto Time K P C E) (tls : Tls K C T E)
    (disk : Disk W E) (bin_dir : Bytes) where
  -- The names of the two files differ.
  pub names_apart : bin_dir ++ cert_name ≢ bin_dir ++ key_name
  unfolding bytes_eq
  names_apart e =
      false≢true
        (ap (λ n. bytes_eq n cert_name) (sym (append_cancel_left bin_dir cert_name key_name e)))

  pub present-must_generate :
      (w : W)
      → disk.stat (bin_dir ++ cert_name) w ≡ present
      → disk.stat (bin_dir ++ key_name) w ≡ present
      → must_generate crypto tls disk bin_dir w ≡ false
  unfolding must_generate
  present-must_generate w c k = rw (c, k) refl

  -- A later start, with whatever the random source gives then.
  abbrev Again : Started W E (Globals K C T) → Type 0
  Again (start_panics w g lines) = Unit
  Again (starts w g lines) =
      (draw : Draw Time K E) (g₀ : Globals K C T)
      → start_ca crypto tls disk bin_dir draw w g₀ ≡ starts w g []

  loaded-Again :
      (w : W) (g : Globals K C T) (lines : List (StartLine E)) (l : Loaded K C T E)
      → must_generate crypto tls disk bin_dir w ≡ false
      → load_ca crypto.parse_certificate tls disk bin_dir cert_name key_name w g ≡ l
      → Again (after_load crypto tls disk bin_dir w lines l)
  unfolding start_ca load_or_panic
  loaded-Again w g lines (loaded g') m l = λ draw g₀.
      rw
        (
          m,
          subst
              (λ x.
                Follows x
                  (load_ca crypto.parse_certificate tls disk bin_dir cert_name key_name w g₀))
              l
              (load_ca-Follows crypto.parse_certificate tls g g₀ disk bin_dir cert_name key_name w),
        )
        refl
  loaded-Again w g lines (load_error e g') m l = tt
  loaded-Again w g lines (no_certificate g') m l = tt

  load_or_panic-Again :
      (w : W) (g : Globals K C T) (lines : List (StartLine E))
      → must_generate crypto tls disk bin_dir w ≡ false
      → Again (load_or_panic crypto tls disk bin_dir w g lines)
  unfolding load_or_panic
  load_or_panic-Again w g lines m =
      loaded-Again w g lines
        (load_ca crypto.parse_certificate tls disk bin_dir cert_name key_name w g) m refl

  module _ (file : Bytes → W → Option Bytes) (lawful : IsLawful disk file)
      (draw : Draw Time K E) where
    Made-must_generate :
        (w : W)
        → Made crypto disk file draw (bin_dir ++ cert_name) (bin_dir ++ key_name) w
        → must_generate crypto tls disk bin_dir w ≡ false
    Made-must_generate w (made key der cert s c k) =
        present-must_generate w (lawful.stat-file _ _ w c) (lawful.stat-file _ _ w k)

    generated-Again :
        (g : Globals K C T) (r : Generated W E)
        → Leaves crypto disk file draw (bin_dir ++ cert_name) (bin_dir ++ key_name) r
        → Again (after_generate crypto tls disk bin_dir g r)
    generated-Again g (generated w) m = load_or_panic-Again w g _ (Made-must_generate w m)
    generated-Again g (generate_error e w) m = tt
    generated-Again g (panics_cert e w) m = tt
    generated-Again g (panics_key e w) m = tt

    start_ca-Again : (w : W) (g : Globals K C T) → Again (start_ca crypto tls disk bin_dir draw w g)
    unfolding start_ca
    start_ca-Again w g = elim (Bool-cases (must_generate crypto tls disk bin_dir w)) [
      | inl m ↦ rw m (
          generated-Again g (generate_ca crypto disk bin_dir draw cert_name key_name w) (
            generate_ca-Leaves crypto disk file draw lawful bin_dir cert_name key_name w
              names_apart))
      | inr m ↦ rw m (load_or_panic-Again w g [] m)
    ]

  -- Once a start has come through, on any disk that keeps the files, every start on what it left
  -- comes through without a line: it makes no CA, changes no file, and gives goproxy the same
  -- authority, whatever the random source and the globals of goproxy are then.
  pub start_ca-again :
      (file : Bytes → W → Option Bytes) (draw draw' : Draw Time K E) (w w' : W)
      (g g' g₀ : Globals K C T) (lines : List (StartLine E))
      → IsLawful disk file
      → start_ca crypto tls disk bin_dir draw w g ≡ starts w' g' lines
      → start_ca crypto tls disk bin_dir draw' w' g₀ ≡ starts w' g' []
  start_ca-again file draw draw' w w' g g' g₀ lines lawful e =
      subst Again e (start_ca-Again file lawful draw w g) draw' g₀
