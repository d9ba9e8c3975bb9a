-- ===== src/Scanner/Language.antt =====
-- The scanner decides the JSON grammar.
use rhine.Scanner.Run.{accepts, new_scanner}
use rhine.Scanner.Sound.{accepts-Json}
use rhine.Scanner.Complete.{Json-accepts}
use rhine.Scanner.State.{Scanner}
use rhine.Prelude.{◌↔◌, true, ◌≡◌, Bytes}
use rhine.Scanner.Grammar.{Json}

-- A fresh scanner, whatever scanner the pool gave, accepts a text exactly when the text is one JSON
-- value with white space round it.
pub accepts_iff_Json :
    (s : Scanner) (text : Bytes) → (accepts (new_scanner s) text ≡ true) ↔ Json text
accepts_iff_Json s text = (accepts-Json s text, Json-accepts s text)
