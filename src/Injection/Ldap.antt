-- ===== src/Injection/Ldap.antt =====
-- injection/ldap.go: the detector `ldap_injection`.
use Prim.Native.String.{◌++◌}
use security_go.Shared.{String, List, [], ◌∷◌, true}
use security_go.Security.{Result, Regexp, clean, high, str}
use security_go.Security.Patterns.{search_one}

abbrev pub name : String
name = "ldap_injection"

abbrev pub patterns : List String
patterns =
    "(?i)\\(\\s*(?:\\||&|!|=|>=?|<=?|~=)" ∷ "(?i)\\(\\s*objectClass\\s*=\\s*\\*?\\)"
    ∷ "(?i)\\(\\s*cn\\s*=\\s*\\*\\)" ∷ "\\(\\s*\\|\\(" ∷ "\\(\\s*&\\(" ∷ "\\(\\s*!\\s*\\(\\s*"
    ∷ "%28(?:\\||&|\\*|%29)" ∷ []

abbrev pub found : String → String → Result
found input m = record {
  name = name;
  detected = true;
  message = "LDAP injection pattern detected: " ++ m;
  severity = high;
  details = ("pattern", str m) ∷ [];
}

unfoldable pub detect : Regexp → String → Result
unfolding search_one
detect rx input = search_one rx input patterns (found input) (clean name)
