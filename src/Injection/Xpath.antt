-- ===== src/Injection/Xpath.antt =====
-- injection/xpath.go: the detector `xpath_injection`.
use Prim.Native.String.{◌++◌}
use security_go.Shared.{String, List, [], ◌∷◌, true}
use security_go.Security.{Result, Regexp, clean, high, medium, str}
use security_go.Security.Patterns.{search_two}

abbrev pub name : String
name = "xpath_injection"

abbrev pub patterns : List String
patterns =
    "(?i)'\\s*(?:or|and)\\s+'?\\d+'?\\s*=\\s*'?\\d+'?" ∷ "(?i)'\\s*(?:or|and)\\s+\\d+\\s*=\\s*\\d+"
    ∷ "\\|.*/.*\\|" ∷ []

abbrev pub medium_patterns : List String
medium_patterns = "(?i)\\bstring-length\\s*\\(" ∷ "(?i)\\bcount\\s*\\(" ∷ []

abbrev pub found : String → String → Result
found input m = record {
  name = name;
  detected = true;
  message = "XPath injection pattern detected: " ++ m;
  severity = high;
  details = ("pattern", str m) ∷ [];
}

abbrev pub suspicious : String → String → Result
suspicious input m = record {
  name = name;
  detected = true;
  message = "Suspicious XPath function reference detected: " ++ m;
  severity = medium;
  details = ("pattern", str m) ∷ [];
}

unfoldable pub detect : Regexp → String → Result
unfolding search_two
detect rx input =
    search_two rx input patterns (found input) medium_patterns (suspicious input) (clean name)
