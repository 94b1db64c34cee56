-- ===== src/Injection/Jndi.antt =====
-- injection/jndi.go: the detector `jndi_injection`.
use Prim.Native.String.{◌++◌}
use security_go.Shared.{String, List, [], ◌∷◌, true}
use security_go.Security.{Result, Regexp, clean, critical, medium, str}
use security_go.Security.Patterns.{search_two}

abbrev pub name : String
name = "jndi_injection"

abbrev pub patterns : List String
patterns =
    "(?i)\\$\\{jndi:" ∷ "(?i)\\$\\{lower:j\\}" ∷ "(?i)\\$\\{upper:j\\}" ∷ "(?i)\\$\\{env:"
    ∷ "(?i)\\$\\{(?:sys|java):" ∷ "(?i)\\$\\{::-j\\}" ∷ "(?i)\\$\\{date:"
    ∷ "(?i)\\$\\{(?:lower|upper):[^}]*[jJ][nN][dD][iI]" ∷ []

abbrev pub medium_patterns : List String
medium_patterns = "(?i)ldaps?://" ∷ "(?i)rmi://" ∷ "(?i)dns://" ∷ []

abbrev pub found : String → String → Result
found input m = record {
  name = name;
  detected = true;
  message = "JNDI/Log4Shell injection pattern detected: " ++ m;
  severity = critical;
  details = ("pattern", str m) ∷ [];
}

abbrev pub suspicious : String → String → Result
suspicious input m = record {
  name = name;
  detected = true;
  message = "Suspicious protocol reference detected: " ++ m;
  severity = medium;
  details = ("pattern", str m) ∷ [];
}

unfoldable pub detect : Regexp → String → Result
unfolding search_two
detect rx input =
    search_two rx input patterns (found input) medium_patterns (suspicious input) (clean name)
