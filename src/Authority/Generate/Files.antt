-- ===== src/Authority/Generate/Files.antt =====
-- What `GenerateCA` leaves in its two files.
use rhine.Disk.{Disk, IsLawful, present}
use rhine.Authority.Generate.{
  Crypto, Draw, Generated, generated, generate_error, panics_cert, panics_key, generate_ca,
  cert_template, create_cert, with_key, sign, save_cert, write_cert, written_cert, write_key,
  written_key, root_of, template_of, certificate_pem, key_pem, parsed, encoded,
}
use rhine.Prelude.{
  ◌∙◌, sym, refl, none, [], inl, ◌^◌, some, inr, ◌⊎◌, ℕ, ◌≢◌, ◌≡◌, ◌++◌, Option, Bytes,
}
use mathlib.Core.Path.{subst}

module _ {Time K P C E W : Type 0} (crypto : Crypto Time K P C E) (disk : Disk W E)
    (file : Bytes → W → Option Bytes) (draw : Draw Time K E) where
  -- A key, and a certificate of its own signature with the root template.
  pub data Signed (key : K) (der : Bytes) (cert : C) : Type 0 where
    signed :
        (serial : ℕ)
        → draw.generate_key 2048 ≡ inr key
        → draw.random_int (2 ^ 128) ≡ inr serial
        → crypto.create_certificate
            (root_of crypto (template_of crypto draw serial))
            (root_of crypto (template_of crypto draw serial))
            (crypto.public_key key)
            key
          ≡ inr der
        → crypto.parse_certificate der ≡ inr cert
        → Signed key der cert

  -- The two files hold the certificate and the key.
  pub data Made (cert_path key_path : Bytes) (w : W) : Type 0 where
    made :
        (key : K) (der : Bytes) (cert : C)
        → Signed key der cert
        → file cert_path w ≡ some (certificate_pem crypto der)
        → file key_path w ≡ some (key_pem crypto key)
        → Made cert_path key_path w

  abbrev pub Leaves : Bytes → Bytes → Generated W E → Type 0
  Leaves cert_path key_path (generated w) = Made cert_path key_path w
  Leaves cert_path key_path (generate_error e w) = Unit
  Leaves cert_path key_path (panics_cert e w) = Unit
  Leaves cert_path key_path (panics_key e w) =
      (disk.stat cert_path w ≡ present) × (disk.stat key_path w ≡ present)

  module _ (lawful : IsLawful disk file) (cert_path key_path : Bytes)
      (apart : cert_path ≢ key_path) where
    kept-create :
        (c : Bytes) (w w' : W) (e : Option E)
        → file cert_path w ≡ some c
        → disk.create key_path w ≡ (w', e)
        → file cert_path w' ≡ some c
    kept-create c w w' e f r =
        subst (λ (x : W × Option E). file cert_path x.0 ≡ some c) r
          (lawful.create-other key_path cert_path w (λ s. apart (sym s)) ∙ f)

    kept-write :
        (c pem : Bytes) (w w' : W) (e : Option E)
        → file cert_path w ≡ some c
        → disk.write key_path pem w ≡ (w', e)
        → file cert_path w' ≡ some c
    kept-write c pem w w' e f r =
        subst (λ (x : W × Option E). file cert_path x.0 ≡ some c) r
          (lawful.write-other key_path cert_path pem w (λ s. apart (sym s)) ∙ f)

    module _ (key : K) (der : Bytes) (cert : C) (s : Signed key der cert) where
      written_key-Leaves :
          (w : W) (r : W × Option E)
          → file cert_path w ≡ some (certificate_pem crypto der)
          → file key_path w ≡ some []
          → disk.write key_path (key_pem crypto key) w ≡ r
          → Leaves cert_path key_path (written_key crypto disk r)
      written_key-Leaves w (w', none) f f' r =
          made key der cert s
            (kept-write (certificate_pem crypto der) (key_pem crypto key) w w' none f r)
            (lawful.write-file key_path [] (key_pem crypto key) w w' f' r)
      written_key-Leaves w (w', some e) f f' r = (
        lawful.stat-file cert_path (certificate_pem crypto der) w'
            (kept-write (certificate_pem crypto der) (key_pem crypto key) w w' (some e) f r),
        subst (λ (x : W × Option E). disk.stat key_path x.0 ≡ present) r
            (lawful.write-stat key_path [] (key_pem crypto key) w f'),
      )

      write_key-Leaves :
          (w : W) (r : W × Option E)
          → file cert_path w ≡ some (certificate_pem crypto der)
          → disk.create key_path w ≡ r
          → Leaves cert_path key_path (write_key crypto disk key_path (key_pem crypto key) r)
      write_key-Leaves w (w', none) f r =
          written_key-Leaves w' (disk.write key_path (key_pem crypto key) w')
            (kept-create (certificate_pem crypto der) w w' none f r)
            (lawful.create-file key_path w w' r) refl
      write_key-Leaves w (w', some e) f r = tt

      written_cert-Leaves :
          (w : W) (r : W × Option E)
          → file cert_path w ≡ some []
          → disk.write cert_path (certificate_pem crypto der) w ≡ r
          → Leaves cert_path key_path (written_cert crypto disk key_path (key_pem crypto key) r)
      written_cert-Leaves w (w', none) f r =
          write_key-Leaves w' (disk.create key_path w')
            (lawful.write-file cert_path [] (certificate_pem crypto der) w w' f r) refl
      written_cert-Leaves w (w', some e) f r = tt

      write_cert-Leaves :
          (w : W) (r : W × Option E)
          → disk.create cert_path w ≡ r
          → Leaves cert_path key_path (
              write_cert crypto disk cert_path
                (certificate_pem crypto der)
                key_path
                (key_pem crypto key)
                r)
      write_cert-Leaves w (w', none) r =
          written_cert-Leaves w' (disk.write cert_path (certificate_pem crypto der) w')
            (lawful.create-file cert_path w w' r) refl
      write_cert-Leaves w (w', some e) r = tt

    parsed-Leaves :
        (key : K) (der : Bytes) (p : E ⊎ C) (w : W)
        → ((cert : C) → p ≡ inr cert → Signed key der cert)
        → Leaves cert_path key_path
            (save_cert crypto disk cert_path key_path key w (parsed crypto der p))
    parsed-Leaves key der (inl e) w s = tt
    parsed-Leaves key der (inr cert) w s =
        write_cert-Leaves key der cert (s cert refl) w (disk.create cert_path w) refl

    encoded-Leaves :
        (key : K) (d : E ⊎ Bytes) (w : W)
        → ((der : Bytes) (cert : C)
            → d ≡ inr der
            → crypto.parse_certificate der ≡ inr cert
            → Signed key der cert)
        → Leaves cert_path key_path
            (save_cert crypto disk cert_path key_path key w (encoded crypto d))
    encoded-Leaves key (inl e) w s = tt
    encoded-Leaves key (inr der) w s =
        parsed-Leaves key der (crypto.parse_certificate der) w (λ cert. s der cert refl)

    templated-Leaves :
        (key : K) (n : E ⊎ ℕ) (w : W)
        → draw.generate_key 2048 ≡ inr key
        → draw.random_int (2 ^ 128) ≡ n
        → Leaves cert_path key_path (
            sign crypto disk cert_path key_path key w
              (elim n [ inl e ↦ inl e | inr serial ↦ inr (template_of crypto draw serial) ]))
    unfolding create_cert
    templated-Leaves key (inl e) w k n = tt
    templated-Leaves key (inr serial) w k n =
        encoded-Leaves key
          (crypto.create_certificate (root_of crypto (template_of crypto draw serial))
            (root_of crypto (template_of crypto draw serial)) (crypto.public_key key) key)
          w (λ der cert d p. signed serial k n d p)

    with_key-Leaves :
        (k : E ⊎ K) (w : W)
        → draw.generate_key 2048 ≡ k
        → Leaves cert_path key_path (with_key crypto disk draw cert_path key_path w k)
    unfolding cert_template
    with_key-Leaves (inl e) w k = tt
    with_key-Leaves (inr key) w k = templated-Leaves key (draw.random_int (2 ^ 128)) w k refl

  -- A `GenerateCA` that returns nil leaves both files whole; one that panics at the key leaves both.
  pub generate_ca-Leaves :
      (lawful : IsLawful disk file) (bin_dir cert_path key_path : Bytes) (w : W)
      → bin_dir ++ cert_path ≢ bin_dir ++ key_path
      → Leaves
          (bin_dir ++ cert_path)
          (bin_dir ++ key_path)
          (generate_ca crypto disk bin_dir draw cert_path key_path w)
  unfolding generate_ca
  generate_ca-Leaves lawful bin_dir cert_path key_path w apart =
      with_key-Leaves lawful (bin_dir ++ cert_path) (bin_dir ++ key_path) apart
        (draw.generate_key 2048) w refl
