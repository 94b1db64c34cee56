-- ===== src/Injection/Ssti.antt =====
-- injection/ssti.go: the detector `ssti`.
use Prim.Native.String.{◌++◌}
use security_go.Shared.{String, List, [], ◌∷◌, true}
use security_go.Security.{Result, Regexp, clean, critical, medium, str}
use security_go.Security.Patterns.{search_two}

abbrev pub name : String
name = "ssti"

abbrev pub patterns : List String
patterns =
    "(?i)\\{\\{[^}]*__(?:class|mro|subclasses|globals|builtins)__[^}]*\\}\\}"
    ∷ "(?i)\\{\\{[^}]*config[^}]*\\}\\}" ∷ "(?i)\\{\\#[^}]*\\#\\}" ∷ []

abbrev pub medium_patterns : List String
medium_patterns =
    "\\{\\{[^}]*\\}\\}" ∷ "(?i)\\$\\{[^}]*\\}" ∷ "<%[^%]*%>" ∷ "(?i)\\.getClass\\b" ∷ []

abbrev pub found : String → String → Result
found input m = record {
  name = name;
  detected = true;
  message = "SSTI injection pattern detected: " ++ m;
  severity = critical;
  details = ("pattern", str m) ∷ [];
}

abbrev pub suspicious : String → String → Result
suspicious input m = record {
  name = name;
  detected = true;
  message = "Suspicious template marker detected: " ++ m;
  severity = medium;
  details = ("pattern", str m) ∷ [];
}

unfoldable pub detect : Regexp → String → Result
unfolding search_two
detect rx input =
    search_two rx input patterns (found input) medium_patterns (suspicious input) (clean name)
