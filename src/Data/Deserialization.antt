-- ===== src/Data/Deserialization.antt =====
-- data/deserialization.go: the detector `deserialization`.
use Prim.Native.String.{◌++◌}
use security_go.Shared.{String, List, [], ◌∷◌, true}
use security_go.Security.{Result, Regexp, clean, critical, medium, str}
use security_go.Security.Patterns.{search_one}

abbrev pub name : String
name = "deserialization"

abbrev pub php_patterns : List String
php_patterns =
    "(?i)O:\\d+:" ∷ "(?i)C:\\d+:" ∷ "(?i)a:\\d+:\\{" ∷ "(?i)s:\\d+:\""
    ∷ "(?i)__PHP_Incomplete_Class" ∷ []

abbrev pub php_medium_patterns : List String
php_medium_patterns =
    "(?i)(?:unserialize|__wakeup|__destruct|__toString|__call|__get|__set|__isset|__unset|__sleep)\\s*\\("
    ∷ []

abbrev pub python_patterns : List String
python_patterns =
    "\\x80[\\x04\\x05]" ∷ "c\\nos\\nsystem\\n" ∷ "c__main__\\n" ∷ "cbinascii\\n" ∷ "cposix\\n"
    ∷ "__reduce__\\s*\\(" ∷ []

abbrev pub java_patterns : List String
java_patterns =
    "rO0A[BC]" ∷ "\\[\\[Ljava\\.lang\\.String;" ∷ "(?i)(?:javaObject|serializedObject)" ∷ []

abbrev pub dotnet_patterns : List String
dotnet_patterns =
    "(?i)System\\.__Serialization"
    ∷ "(?i)System\\.Runtime\\.Serialization\\.Formatters\\.Binary\\.BinaryFormatter"
    ∷ "(?i)__typeinfo" ∷ "\\[System\\.IO\\.FileStream" ∷ []

abbrev pub ordered_languages : List (String × List String)
ordered_languages =
    ("php", php_patterns)
    ∷ ("python", python_patterns)
    ∷ ("java", java_patterns)
    ∷ ("dotnet", dotnet_patterns)
    ∷ []

abbrev pub found : String → String → Result
found language m = record {
  name = name;
  detected = true;
  message = "Deserialization attack pattern detected (" ++ (language ++ ("): " ++ m));
  severity = critical;
  details = ("pattern", str m) ∷ ("language", str language) ∷ [];
}

abbrev pub suspicious : String → Result
suspicious m = record {
  name = name;
  detected = true;
  message = "Suspicious deserialization function reference detected: " ++ m;
  severity = medium;
  details = ("pattern", str m) ∷ ("language", str "php") ∷ [];
}

-- The loop over the languages, with the result where none of them matches.
unfoldable pub scan_languages : Regexp → String → List (String × List String) → Result → Result
unfolding search_one
scan_languages rx input [] nothing = nothing
scan_languages rx input ((language, patterns) ∷ languages) nothing =
    search_one rx input patterns (found language) (scan_languages rx input languages nothing)

unfoldable pub detect : Regexp → String → Result
unfolding scan_languages search_one
detect rx input =
    scan_languages rx input ordered_languages
      (search_one rx input php_medium_patterns suspicious (clean name))
