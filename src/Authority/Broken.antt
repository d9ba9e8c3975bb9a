-- ===== src/Authority/Broken.antt =====
-- A start that fails while it writes the key.
use rhine.Disk.{Disk, IsLawful}
use rhine.Authority.Generate.{Crypto, Draw, panics_key, generate_ca}
use rhine.Authority.Generate.Files.{Leaves, generate_ca-Leaves}
use rhine.Authority.Load.{Tls, Globals, load_error, load_ca}
use rhine.Authority.Start.{
  start_panics, start_ca, must_generate, load_or_panic, cert_name, key_name, load_failed,
}
use rhine.Authority.Restart.{names_apart, present-must_generate}
use rhine.Prelude.{◌++◌, refl, [], false, ◌∷◌, ◌≡◌, Option, Bytes}
use mathlib.Core.Path.{subst}

module _ {Time K P C T E W : Type 0} (crypto : Crypto Time K P C E) (tls : Tls K C T E)
    (disk : Disk W E) (bin_dir : Bytes) where
  key-present :
      (file : Bytes → W → Option Bytes) (draw : Draw Time K E) (w w' : W) (e : E)
      → IsLawful disk file
      → generate_ca crypto disk bin_dir draw cert_name key_name w ≡ panics_key e w'
      → must_generate crypto tls disk bin_dir w' ≡ false
  key-present file draw w w' e lawful p =
      let (c, k) =
        subst (Leaves crypto disk file draw (bin_dir ++ cert_name) (bin_dir ++ key_name)) p (
          generate_ca-Leaves crypto disk file draw lawful bin_dir cert_name key_name w
            (names_apart crypto tls disk bin_dir)) in
      present-must_generate crypto tls disk bin_dir w' c k

  -- If GenerateCA panics because the key cannot be written, on a disk that keeps the files, and
  -- LoadCA refuses what it left, then every later start panics and leaves that as it is: no CA is
  -- made again, since both files are there.
  pub start_ca-stays_broken :
      (file : Bytes → W → Option Bytes) (draw draw' : Draw Time K E) (w w' : W) (e refused : E)
      (g : Globals K C T)
      → IsLawful disk file
      → generate_ca crypto disk bin_dir draw cert_name key_name w ≡ panics_key e w'
      → load_ca crypto.parse_certificate tls disk bin_dir cert_name key_name w' g
        ≡ load_error refused g
      → start_ca crypto tls disk bin_dir draw' w' g ≡ start_panics w' g (load_failed refused ∷ [])
  unfolding start_ca load_or_panic
  start_ca-stays_broken file draw draw' w w' e refused g lawful p l =
      rw (key-present file draw w w' e lawful p, l) refl
