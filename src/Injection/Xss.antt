-- ===== src/Injection/Xss.antt =====
-- injection/xss.go: the detector `xss`.
use Prim.Native.String.{◌++◌}
use security_go.Shared.{String, List, [], ◌∷◌, true}
use security_go.Security.{Result, Regexp, clean, high, medium, str}
use security_go.Security.Patterns.{search_two}

abbrev pub name : String
name = "xss"

abbrev pub patterns : List String
patterns =
    "(?i)<script" ∷ "(?i)</script>" ∷ "(?i)<[a-z][^>]*\\s+on[a-z]+\\s*="
    ∷ "(?i)javascript\\s*:\\s*(?:alert|confirm|prompt|eval\\s*\\(|document\\.|location|window\\.|fetch\\s*\\(|XMLHttpRequest|atob\\s*\\(|fromCharCode)"
    ∷ "(?i)<iframe" ∷ "(?i)<embed" ∷ "(?i)<object" ∷ "(?i)<svg[^>]*onload" ∷ "(?i)<img[^>]*onerror"
    ∷ "(?i)<body[^>]*onload" ∷ "(?i)<input[^>]*onfocus" ∷ "(?i)expression\\s*\\("
    ∷ "(?i)url\\s*\\(\\s*[\"']?\\s*(?:javascript|data):" ∷ "(?i)<link" ∷ "(?i)<meta"
    ∷ "(?i)document\\.(?:write|cookie)" ∷ "(?i)<base[^>]*href" ∷ "(?i)fromCharCode\\s*\\("
    ∷ "(?i)&#(?:x(?:3c|3e|22|27|26|60|7c)|(?:38|39|60|62|34|96|124));?" ∷ []

abbrev pub medium_patterns : List String
medium_patterns = "(?i)javascript\\s*:" ∷ "(?i)&#x?[0-9a-f]+;?" ∷ "(?i)eval\\s*\\(" ∷ []

abbrev pub found : String → String → Result
found input m = record {
  name = name;
  detected = true;
  message = "XSS injection pattern detected: " ++ m;
  severity = high;
  details = ("pattern", str m) ∷ [];
}

abbrev pub suspicious : String → String → Result
suspicious input m = record {
  name = name;
  detected = true;
  message = "Suspicious XSS-related pattern detected: " ++ m;
  severity = medium;
  details = ("pattern", str m) ∷ [];
}

unfoldable pub detect : Regexp → String → Result
unfolding search_two
detect rx input =
    search_two rx input patterns (found input) medium_patterns (suspicious input) (clean name)
