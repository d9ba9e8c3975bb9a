-- ===== src/Scanner/Tests.antt =====
-- Runs of the scanner and of the walk at fixed inputs, and the theorems at such inputs.
use rhine.Prelude.{◌↔◌, refl, false, arith, true, length, ◌≡◌, Bytes, codes}
use rhine.Scanner.State.{zero_scanner, is_space}
use rhine.Scanner.Step.{step_at, is_digit, is_digit19, is_hex, is_escape}
use rhine.Scanner.Run.{scan_all, new_scanner, accepts}
use rhine.Scanner.Language.{accepts_iff_Json}
use rhine.Scanner.Invariant.Runs.{Explained, new_scanner-Explained}
use rhine.Scanner.Grammar.{Json}

abbrev sample : Bytes
sample = codes "{\"a\": [1, -2.5e3, true], \"b\" : {}} "

abbrev broken : Bytes
broken = codes "{\"a\": 01}"

accepts-sample : accepts (new_scanner zero_scanner) sample ≡ true
unfolding scan_all step_at is_space is_digit is_digit19 is_hex is_escape
accepts-sample = refl

accepts-broken : accepts (new_scanner zero_scanner) broken ≡ false
unfolding scan_all step_at is_space is_digit is_digit19 is_hex is_escape
accepts-broken = refl

accepts_iff_Json_example : (accepts (new_scanner zero_scanner) sample ≡ true) ↔ Json sample
accepts_iff_Json_example = accepts_iff_Json zero_scanner sample

new_scanner-Explained_example :
    Explained (length broken) (scan_all (new_scanner zero_scanner) broken)
new_scanner-Explained_example = new_scanner-Explained zero_scanner broken (omega arith)
