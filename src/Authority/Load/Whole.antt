-- ===== src/Authority/Load/Whole.antt =====
-- `LoadCA` and the start set all the globals of goproxy, or none.
use rhine.Disk.{Disk}
use rhine.Authority.Generate.{
  Crypto, Draw, Generated, generated, generate_error, panics_cert, panics_key, generate_ca,
}
use rhine.Authority.Load.{
  Tls, Globals, KeyPair, Loaded, loaded, load_error, no_certificate, load_ca, opened, with_files,
  with_pair, first_of, with_leaf, globals_of,
}
use rhine.Authority.Start.{
  StartLine, Started, starts, start_panics, start_ca, must_generate, load_or_panic, after_load,
  after_generate, cert_name, key_name,
}
use rhine.Prelude.{
  refl, inr, [], Option, ◌∷◌, inl, ◌++◌, ◌≡◌, Bool-cases, List, ◌⊎◌, Bytes, none, some,
}

module _ {K C T E : Type 0} (parse_certificate : Bytes → E ⊎ C) (tls : Tls K C T E)
    (g : Globals K C T) where
  -- All the globals come from one pair, whose leaf is parsed.
  pub data Whole (g' : Globals K C T) : Type 0 where
    whole :
        (ca : KeyPair K C) (leaf : C)
        → ca.leaf ≡ some leaf
        → g' ≡ globals_of parse_certificate tls ca
        → Whole g'

  abbrev IsWhole : Loaded K C T E → Type 0
  IsWhole (loaded g') = Whole g'
  IsWhole (load_error e g') = g' ≡ g
  IsWhole (no_certificate g') = g' ≡ g

  with_leaf-IsWhole :
      (ca : KeyPair K C) (r : E ⊎ C) → IsWhole (with_leaf parse_certificate tls ca g r)
  with_leaf-IsWhole ca (inl e) = refl
  with_leaf-IsWhole ca (inr leaf) = whole (record ca { leaf = some leaf }) leaf refl refl

  first_of-IsWhole :
      (ca : KeyPair K C) (ders : List Bytes) → IsWhole (first_of parse_certificate tls ca g ders)
  first_of-IsWhole ca [] = refl
  first_of-IsWhole ca (der ∷ ders) = with_leaf-IsWhole ca (parse_certificate der)

  with_pair-IsWhole : (r : E ⊎ KeyPair K C) → IsWhole (with_pair parse_certificate tls g r)
  with_pair-IsWhole (inl e) = refl
  with_pair-IsWhole (inr ca) = first_of-IsWhole ca ca.certificate

  with_files-IsWhole :
      (cert key : E ⊎ Bytes) → IsWhole (with_files parse_certificate tls g cert key)
  with_files-IsWhole (inl e) key = refl
  with_files-IsWhole (inr cert) (inl e) = refl
  with_files-IsWhole (inr cert) (inr key) = with_pair-IsWhole (tls.x509_key_pair cert key)

  opened-IsWhole :
      {W : Type 0} (disk : Disk W E) (cert_path key_path : Bytes) (w : W) (a b : Option E)
      → IsWhole (opened parse_certificate tls disk cert_path key_path w g a b)
  opened-IsWhole disk cert_path key_path w (some e) b = refl
  opened-IsWhole disk cert_path key_path w none (some e) = refl
  opened-IsWhole disk cert_path key_path w none none =
      with_files-IsWhole (disk.read_all cert_path w) (disk.read_all key_path w)

  load_ca-IsWhole :
      {W : Type 0} (disk : Disk W E) (bin_dir cert_path key_path : Bytes) (w : W)
      → IsWhole (load_ca parse_certificate tls disk bin_dir cert_path key_path w g)
  unfolding load_ca
  load_ca-IsWhole disk bin_dir cert_path key_path w =
      opened-IsWhole disk (bin_dir ++ cert_path) (bin_dir ++ key_path) w
        (disk.open_file (bin_dir ++ cert_path) w) (disk.open_file (bin_dir ++ key_path) w)

module _ {Time K P C T E W : Type 0} (crypto : Crypto Time K P C E) (tls : Tls K C T E)
    (disk : Disk W E) (bin_dir : Bytes) (g : Globals K C T) where
  abbrev pub StartsWhole : Started W E (Globals K C T) → Type 0
  StartsWhole (starts w g' lines) = Whole crypto.parse_certificate tls g g'
  StartsWhole (start_panics w g' lines) = g' ≡ g

  loaded-StartsWhole :
      (w : W) (lines : List (StartLine E)) (l : Loaded K C T E)
      → IsWhole crypto.parse_certificate tls g l
      → StartsWhole (after_load crypto tls disk bin_dir w lines l)
  loaded-StartsWhole w lines (loaded g') h = h
  loaded-StartsWhole w lines (load_error e g') h = h
  loaded-StartsWhole w lines (no_certificate g') h = h

  load_or_panic-StartsWhole :
      (w : W) (lines : List (StartLine E))
      → StartsWhole (load_or_panic crypto tls disk bin_dir w g lines)
  unfolding load_or_panic
  load_or_panic-StartsWhole w lines =
      loaded-StartsWhole w lines
        (load_ca crypto.parse_certificate tls disk bin_dir cert_name key_name w g)
        (load_ca-IsWhole crypto.parse_certificate tls g disk bin_dir cert_name key_name w)

  generated-StartsWhole :
      (r : Generated W E) → StartsWhole (after_generate crypto tls disk bin_dir g r)
  generated-StartsWhole (generated w) = load_or_panic-StartsWhole w _
  generated-StartsWhole (generate_error e w) = refl
  generated-StartsWhole (panics_cert e w) = refl
  generated-StartsWhole (panics_key e w) = refl

  pub start_ca-StartsWhole :
      (draw : Draw Time K E) (w : W) → StartsWhole (start_ca crypto tls disk bin_dir draw w g)
  unfolding start_ca
  start_ca-StartsWhole draw w = elim (Bool-cases (must_generate crypto tls disk bin_dir w)) [
    | inl m ↦
        rw m (generated-StartsWhole (generate_ca crypto disk bin_dir draw cert_name key_name w))
    | inr m ↦ rw m (load_or_panic-StartsWhole w [])
  ]
