-- ===== src/Protocol/OpenRedirect.antt =====
-- protocol/open_redirect.go: the detector `open_redirect`.
use security_go.Shared.{String, List, [], ◌∷◌, true}
use security_go.Security.{Result, Regexp, clean, medium, str}
use security_go.Security.Patterns.{search_one}

abbrev pub name : String
name = "open_redirect"

abbrev pub patterns : List String
patterns =
    "(?i)^\\s*//[^/]" ∷ "(?i)^\\s*(?:javascript|data|vbscript):"
    ∷ "(?i)redirect(?:ed)?(?:_to|_url)?\\s*=\\s*(?:https?:)?//"
    ∷ "(?i)(?:dest|target|next|return|goto|url)\\s*=\\s*(?:https?:)?//" ∷ "(?i)%2[fF].*%2[fF]" ∷ []

abbrev pub found : String → String → Result
found input m = record {
  name = name;
  detected = true;
  message = "Open redirect pattern detected: external or protocol-based redirect";
  severity = medium;
  details = ("matched_pattern", str m) ∷ ("input", str input) ∷ [];
}

unfoldable pub detect : Regexp → String → Result
unfolding search_one
detect rx input = search_one rx input patterns (found input) (clean name)
