-- ===== src/Injection/Sql.antt =====
-- injection/sql.go: the detector `sql_injection`.
use Prim.Native.String.{◌++◌}
use security_go.Shared.{String, List, [], ◌∷◌, true}
use security_go.Security.{Result, Regexp, clean, critical, medium, str}
use security_go.Security.Patterns.{search_two}

abbrev pub name : String
name = "sql_injection"

abbrev pub patterns : List String
patterns =
    "(?i)(?:/\\*.*?\\*/\\s*)*union(?:\\s+|/\\*.*?\\*/)\\s*(?:/\\*.*?\\*/\\s*)*select"
    ∷ "(?i)union\\s*\\(\\s*select" ∷ "(?i)\\b(?:information_schema|mysql|pg_catalog|sys)\\."
    ∷ "(?i)\\b(?:load_file|into\\s+(?:out|dump)file)\\b"
    ∷ "(?i)(?:'|\\s)(?:or|and)\\s+\\d+\\s*=\\s*\\d+"
    ∷ "(?i)'\\s*(?:or|and)\\s+'[^']*'\\s*=\\s*'[^']*'?" ∷ "(?i)waitfor\\s+delay"
    ∷ "(?i)\\b(?:exec|execute)\\s+(?:master\\.\\.|xp_)"
    ∷ "(?i)\\b(?:exec|execute)\\s*\\(\\s*(?:master\\.\\.|xp_)" ∷ "(?i)['\"]\\s*(?:--|/\\*)"
    ∷ "(?i)['\"]\\s*#\\s*$" ∷ "(?i)['\"]\\)\\s*(?:--|#|/\\*)"
    ∷ "(?i)\\)\\s*(?:or|and)\\s+\\(?['\"]?\\d+['\"]?\\s*=\\s*['\"]?\\d+"
    ∷ "(?i)(?:'|\\s)(?:or|and)\\s+(?:sleep|benchmark|pg_sleep)\\s*\\("
    ∷ "(?i)(?:^|[^a-z])(?:--|#|/\\*)\\s*(?:(?:or|and|select|union|drop|update|insert|delete|having|group|where|order|from|limit|sleep|benchmark|exec)\\b|xp_)"
    ∷ "(?i)\\b(?:hex|char|ascii|concat)\\s*\\(\\s*[^)]*(?:\\d+|0x[0-9a-f]+|\\b(?:user|version|database|current_user|mid|substr|left|right|char|ascii|concat|select|from|where|union|or|and)\\b)[^)]*\\)"
    ∷ []

abbrev pub medium_patterns : List String
medium_patterns = "(?i)\\b(?:sleep|benchmark|pg_sleep)\\s*\\(" ∷ "(?i)\\bsqlite_master\\b" ∷ []

abbrev pub found : String → String → Result
found input m = record {
  name = name;
  detected = true;
  message = "SQL injection pattern detected: " ++ m;
  severity = critical;
  details = ("pattern", str m) ∷ [];
}

abbrev pub suspicious : String → String → Result
suspicious input m = record {
  name = name;
  detected = true;
  message = "Suspicious SQL function reference detected: " ++ m;
  severity = medium;
  details = ("pattern", str m) ∷ [];
}

unfoldable pub detect : Regexp → String → Result
unfolding search_two
detect rx input =
    search_two rx input patterns (found input) medium_patterns (suspicious input) (clean name)
