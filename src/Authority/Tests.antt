-- ===== src/Authority/Tests.antt =====
-- The theorems on a small disk, and with small certificates.
use rhine.Prelude.{◌∷◌, refl, ◌++◌, true, [], ◌≡◌, bytes_eq, Bool, Bytes}
use rhine.Authority.Sample.{crypto, tls, draw, bin_dir, empty, globals}
use rhine.Disk.Sample.{Files, file, created, written, disk, disk-IsLawful}
use rhine.Authority.Generate.{generate_ca}
use rhine.Authority.Load.{load_ca}
use rhine.Authority.Start.{
  starts, start_panics, start_ca, cert_name, key_name, generating, saved_in, register_hint,
  load_failed, load_or_panic, must_generate,
}
use rhine.Authority.Restart.{start_ca-again, names_apart}
use rhine.Authority.Broken.{start_ca-stays_broken}
use rhine.Authority.Round.{load_ca-generate_ca, Loads, ReadsPairs}

abbrev with_cert : Files
with_cert = written (bin_dir ++ cert_name) (42 ∷ 7 ∷ []) (created (bin_dir ++ cert_name) empty)

abbrev with_both : Files
with_both = written (bin_dir ++ key_name) (41 ∷ []) (created (bin_dir ++ key_name) with_cert)

abbrev accepts_all : Bytes → Bool
accepts_all p = true

abbrev accepts_cert : Bytes → Bool
accepts_cert p = bytes_eq p (bin_dir ++ cert_name)

start_ca-again_example :
    start_ca crypto tls (disk accepts_all) bin_dir (draw 50) with_both (globals 3)
    ≡ starts with_both (globals 41) []
unfolding start_ca must_generate load_or_panic generate_ca load_ca bytes_eq
start_ca-again_example =
    start_ca-again crypto tls (disk accepts_all) bin_dir file (draw 41) (draw 50) empty with_both
      (globals 2) (globals 41) (globals 3) (generating ∷ saved_in bin_dir ∷ register_hint ∷ [])
      (disk-IsLawful accepts_all) refl

start_ca-stays_broken_example :
    start_ca crypto tls
      (disk accepts_cert)
      bin_dir
      (draw 50)
      (created (bin_dir ++ key_name) with_cert)
      (globals 2)
    ≡ start_panics (created (bin_dir ++ key_name) with_cert) (globals 2) (load_failed 7 ∷ [])
unfolding generate_ca load_ca bytes_eq
start_ca-stays_broken_example =
    start_ca-stays_broken crypto tls (disk accepts_cert) bin_dir file (draw 41) (draw 50) empty
      (created (bin_dir ++ key_name) with_cert) 28 7 (globals 2) (disk-IsLawful accepts_cert) refl
      refl

pairs : ReadsPairs crypto tls (disk accepts_all) file (draw 41)
pairs = record { pair_of = λ key der cert s. refl }

load_ca-generate_ca_example : Loads crypto tls (disk accepts_all) file (draw 41) (
    load_ca crypto.parse_certificate tls
      (disk accepts_all)
      bin_dir
      cert_name
      key_name
      with_both
      (globals 2))
unfolding generate_ca bytes_eq
load_ca-generate_ca_example =
    load_ca-generate_ca crypto tls (disk accepts_all) file (draw 41) bin_dir cert_name key_name
      empty with_both (globals 2) (disk-IsLawful accepts_all) pairs
      (names_apart crypto tls (disk accepts_all) bin_dir) refl
