-- ===== src/Data/PrototypePollution.antt =====
-- data/prototype_pollution.go: the detector `prototype_pollution`.
use Prim.Native.String.{◌++◌}
use security_go.Shared.{String, List, [], ◌∷◌, true}
use security_go.Security.{Result, Regexp, clean, critical, medium, str}
use security_go.Security.Patterns.{search_two}

abbrev pub name : String
name = "prototype_pollution"

abbrev pub patterns : List String
patterns =
    "(?i)__defineGetter__\\s*\\(" ∷ "(?i)__defineSetter__\\s*\\(" ∷ "(?i)__lookupGetter__\\s*\\("
    ∷ "(?i)__lookupSetter__\\s*\\(" ∷ "(?i)\\[\\[__proto__\\]\\]" ∷ "\\.__proto__\\s*="
    ∷ "(?i)\\bconstructor\\b\\s*\\[\\s*['\"]prototype['\"]\\s*\\]" ∷ []

abbrev pub medium_patterns : List String
medium_patterns =
    "(?i)[\"']__proto__[\"']\\s*:" ∷ "(?i)[\"']constructor[\"']\\s*:"
    ∷ "(?i)[\"']prototype[\"']\\s*:" ∷ []

abbrev pub found : String → String → Result
found input m = record {
  name = name;
  detected = true;
  message = "JavaScript prototype pollution pattern detected: " ++ m;
  severity = critical;
  details = ("pattern", str m) ∷ [];
}

abbrev pub suspicious : String → String → Result
suspicious input m = record {
  name = name;
  detected = true;
  message = "Suspicious prototype key reference detected: " ++ m;
  severity = medium;
  details = ("pattern", str m) ∷ [];
}

unfoldable pub detect : Regexp → String → Result
unfolding search_two
detect rx input =
    search_two rx input patterns (found input) medium_patterns (suspicious input) (clean name)
