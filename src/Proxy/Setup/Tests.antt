-- ===== src/Proxy/Setup/Tests.antt =====
-- A first start on a small disk.
use rhine.Authority.Sample.{crypto, tls, draw, bin_dir, empty, globals}
use rhine.Disk.Sample.{disk}
use rhine.Proxy.Setup.{Settings, Serves, new_proxy, new_proxy-Serves}
use rhine.Prelude.{none, true, false, codes, bytes_eq, [], ℕ}

abbrev settings : Settings
settings = record {
  logger = none;
  log_path = codes "/dev/null";
  log_disable_std_out = true;
  filter = record { enable_host_filter = true; host_filter = none };
  verbose = false;
  verbose_go_proxy = false;
  address = [];
  disable_cert_store = false;
  no_unknown_json = false;
}

new_proxy-Serves_example :
    Serves crypto tls
      (disk (λ p. true))
      bin_dir
      ℕ
      (bytes_eq (codes "app.adjust.com"))
      settings
      (globals 2)
      (new_proxy crypto tls
        (disk (λ p. true))
        bin_dir
        ℕ
        (λ path line. true)
        (λ line. true)
        (bytes_eq (codes "app.adjust.com"))
        (draw 41)
        settings
        empty
        (globals 2))
new_proxy-Serves_example =
    new_proxy-Serves crypto tls (disk (λ p. true)) bin_dir ℕ (λ path line. true) (λ line. true)
      (bytes_eq (codes "app.adjust.com")) (draw 41) settings empty (globals 2)
