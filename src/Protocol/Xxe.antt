-- ===== src/Protocol/Xxe.antt =====
-- protocol/xxe.go: the detector `xxe`.
use security_go.Shared.{String, List, [], ◌∷◌, true}
use security_go.Security.{Result, Regexp, clean, high, str}
use security_go.Security.Patterns.{search_one}

abbrev pub name : String
name = "xxe"

abbrev pub patterns : List String
patterns =
    "(?i)<!ENTITY\\s+\\w+\\s+(?:SYSTEM|PUBLIC)\\s+[\"']" ∷ "(?i)<!ENTITY\\s+%\\s+\\w+\\s+"
    ∷ "(?i)<!DOCTYPE\\s+\\w+\\s+\\["
    ∷ "(?i)<!ENTITY\\s+\\w+\\s+SYSTEM\\s+[\"'](?:file|php|http|ftp|gopher|dict|data|expect)://"
    ∷ "(?i)%\\w+;" ∷ "(?i)&(?:xxe|file|http|ftp|gopher|dict|data|expect);" ∷ []

abbrev pub found : String → String → Result
found input m = record {
  name = name;
  detected = true;
  message = "XXE attack pattern detected: XML external entity injection";
  severity = high;
  details = ("matched_pattern", str m) ∷ ("input", str input) ∷ [];
}

unfoldable pub detect : Regexp → String → Result
unfolding search_one
detect rx input = search_one rx input patterns (found input) (clean name)
