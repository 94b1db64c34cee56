-- ===== src/FileChecks/Upload.antt =====
-- file/upload.go: the detector `upload`.
use Prim.Native.String.{◌++◌}
use security_go.Shared.{String, List, [], ◌∷◌, true}
use security_go.Security.{Result, Regexp, clean, high, medium}
use security_go.Security.Patterns.{search_two}

abbrev pub name : String
name = "upload"

abbrev pub malicious_content_patterns : List String
malicious_content_patterns = "(?i)<\\?php" ∷ "<\\?=" ∷ "<%[^%]*%>" ∷ "(?i)<script" ∷ []

abbrev pub code_eval_patterns : List String
code_eval_patterns = "(?i)eval\\s*\\(" ∷ "(?i)system\\s*\\(" ∷ "(?i)exec\\s*\\(" ∷ []

abbrev pub found : String → String → Result
found input m = record {
  name = name;
  detected = true;
  message = "Malicious content detected: " ++ m;
  severity = high;
  details = [];
}

abbrev pub suspicious : String → String → Result
suspicious input m = record {
  name = name;
  detected = true;
  message = "Suspicious code function detected: " ++ m;
  severity = medium;
  details = [];
}

unfoldable pub detect : Regexp → String → Result
unfolding search_two
detect rx input =
    search_two rx input malicious_content_patterns (found input) code_eval_patterns
      (suspicious input) (clean name)
