-- ===== src/Injection/Ssi.antt =====
-- injection/ssi.go: the detector `ssi_injection`.
use Prim.Native.String.{◌++◌}
use security_go.Shared.{String, List, [], ◌∷◌, true}
use security_go.Security.{Result, Regexp, clean, high, str}
use security_go.Security.Patterns.{search_one}

abbrev pub name : String
name = "ssi_injection"

abbrev pub patterns : List String
patterns =
    "(?i)<!--\\s*#(?:exec|include|echo|config|fsize|flastmod|printenv|set|if)\\b"
    ∷ "(?i)<!--\\s*#exec\\s+(?:cmd|cgi)=" ∷ "(?i)<!--\\s*#include\\s+(?:file|virtual)="
    ∷ "(?i)<!--\\s*#echo\\s+var=" ∷ []

abbrev pub found : String → String → Result
found input m = record {
  name = name;
  detected = true;
  message = "SSI injection pattern detected: " ++ m;
  severity = high;
  details = ("pattern", str m) ∷ [];
}

unfoldable pub detect : Regexp → String → Result
unfolding search_one
detect rx input = search_one rx input patterns (found input) (clean name)
