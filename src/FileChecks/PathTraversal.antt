-- ===== src/FileChecks/PathTraversal.antt =====
-- file/path_traversal.go: the detector `path_traversal`.
use Prim.Native.String.{◌++◌}
use security_go.Shared.{String, List, [], ◌∷◌, true}
use security_go.Security.{Result, Regexp, clean, high, medium}
use security_go.Security.Patterns.{search_two}

abbrev pub name : String
name = "path_traversal"

abbrev pub patterns : List String
patterns =
    "%2e%2e[/\\\\]" ∷ "%252e%252e[/\\\\]" ∷ "(?i)\\.\\.%2f" ∷ "(?i)\\.\\.%5c" ∷ "(?i)php://filter"
    ∷ "(?i)php://input" ∷ "(?i)data://" ∷ "(?i)expect://" ∷ "(?i)phar://" ∷ "(?i)zip://"
    ∷ "(?i)file:///" ∷ "/etc/(?:passwd|shadow|hosts|group)"
    ∷ "(?i)C:\\\\Windows\\\\(?:System32|win\\.ini)" ∷ "%00" ∷ "\\x00" ∷ []

abbrev pub medium_patterns : List String
medium_patterns = "\\.\\./" ∷ "\\.\\.\\\\" ∷ []

abbrev pub found : String → String → Result
found input m = record {
  name = name;
  detected = true;
  message = "Path traversal attack detected: " ++ m;
  severity = high;
  details = [];
}

abbrev pub suspicious : String → String → Result
suspicious input m = record {
  name = name;
  detected = true;
  message = "Suspicious path component detected: " ++ m;
  severity = medium;
  details = [];
}

unfoldable pub detect : Regexp → String → Result
unfolding search_two
detect rx input =
    search_two rx input patterns (found input) medium_patterns (suspicious input) (clean name)
