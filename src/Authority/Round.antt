-- ===== src/Authority/Round.antt =====
-- The authority that is made is the one that is loaded.
use rhine.Disk.{Disk, IsLawful}
use rhine.Authority.Generate.{Crypto, Draw, generated, generate_ca, certificate_pem, key_pem}
use rhine.Authority.Generate.Files.{Leaves, generate_ca-Leaves, Signed, signed, Made, made}
use rhine.Authority.Load.{Tls, Globals, Loaded, loaded, load_ca, globals_of}
use rhine.Prelude.{refl, none, some, [], ◌≢◌, inr, ◌++◌, ◌∷◌, ◌≡◌, Option, Bytes}
use mathlib.Core.Path.{subst}

module _ {Time K P C T E W : Type 0} (crypto : Crypto Time K P C E) (tls : Tls K C T E)
    (disk : Disk W E) (file : Bytes → W → Option Bytes) (draw : Draw Time K E) where
  -- `X509KeyPair` reads a PEM certificate and the PEM key that it belongs to, without the leaf.
  pub record ReadsPairs : Type 0 where
    pub pair_of :
        (key : K) (der : Bytes) (cert : C)
        → Signed crypto disk file draw key der cert
        → tls.x509_key_pair (certificate_pem crypto der) (key_pem crypto key)
          ≡ inr (record { certificate = der ∷ []; private_key = key; leaf = none })

  -- The authority of a key and its certificate.
  abbrev pub authority : K → Bytes → C → Globals K C T
  authority key der cert =
      globals_of crypto.parse_certificate tls
        (record { certificate = der ∷ []; private_key = key; leaf = some cert })

  pub data Loads (l : Loaded K C T E) : Type 0 where
    loads :
        (key : K) (der : Bytes) (cert : C)
        → Signed crypto disk file draw key der cert
        → l ≡ loaded (authority key der cert)
        → Loads l

  Made-Loads :
      (bin_dir cert_path key_path : Bytes) (w : W) (g : Globals K C T)
      → IsLawful disk file
      → ReadsPairs
      → Made crypto disk file draw (bin_dir ++ cert_path) (bin_dir ++ key_path) w
      → Loads (load_ca crypto.parse_certificate tls disk bin_dir cert_path key_path w g)
  unfolding load_ca
  Made-Loads bin_dir cert_path key_path w g lawful reads
        (made key der cert (signed serial k n d p) c q) =
      loads key der cert (signed serial k n d p) (
        rw
          (
            lawful.open_file-file _ _ w c,
            lawful.open_file-file _ _ w q,
            lawful.read_all-file _ _ w c,
            lawful.read_all-file _ _ w q,
            reads.pair_of key der cert (signed serial k n d p),
            p,
          )
          refl)

  -- On a disk that keeps the files, a LoadCA behind a GenerateCA that returned nil, with the same
  -- two paths, gives goproxy the key that was drawn and the certificate that it signed, with its
  -- leaf, for the CA and all four actions, if X509KeyPair reads such a pair.
  pub load_ca-generate_ca :
      (bin_dir cert_path key_path : Bytes) (w w' : W) (g : Globals K C T)
      → IsLawful disk file
      → ReadsPairs
      → bin_dir ++ cert_path ≢ bin_dir ++ key_path
      → generate_ca crypto disk bin_dir draw cert_path key_path w ≡ generated w'
      → Loads (load_ca crypto.parse_certificate tls disk bin_dir cert_path key_path w' g)
  load_ca-generate_ca bin_dir cert_path key_path w w' g lawful reads apart e =
      Made-Loads bin_dir cert_path key_path w' g lawful reads (
        subst (Leaves crypto disk file draw (bin_dir ++ cert_path) (bin_dir ++ key_path)) e
          (generate_ca-Leaves crypto disk file draw lawful bin_dir cert_path key_path w apart))
