-- ===== src/Data/CsvInjection.antt =====
-- data/csv_injection.go: the detector `csv_injection`.
use Prim.Native.String.{◌++◌}
use security_go.Shared.{String, List, [], ◌∷◌, true}
use security_go.Security.{Result, Regexp, clean, high, str}
use security_go.Security.Patterns.{search_one}

abbrev pub name : String
name = "csv_injection"

abbrev pub patterns : List String
patterns =
    "^\\s*=(?:cmd|HYPERLINK|DDE|IMPORTXML|IMPORTDATA|WEBSERVICE|IMPORTFEED)\\s*\\("
    ∷ "^\\s*@(?:SUM|AVERAGE|COUNT|MAX|MIN|ROUND|IF|VLOOKUP|HLOOKUP)\\s*\\("
    ∷ "^\\s*\\+\\s*(?:SUM|AVERAGE|COUNT|MAX|MIN)\\s*\\("
    ∷ "^\\s*-\\s*(?:SUM|AVERAGE|COUNT|MAX|MIN)\\s*\\(" ∷ "^\\s*=\\s*\\w+\\+" ∷ []

abbrev pub found : String → String → Result
found input m = record {
  name = name;
  detected = true;
  message = "CSV formula injection pattern detected: " ++ m;
  severity = high;
  details = ("pattern", str m) ∷ [];
}

unfoldable pub detect : Regexp → String → Result
unfolding search_one
detect rx input = search_one rx input patterns (found input) (clean name)
