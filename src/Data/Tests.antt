-- ===== src/Data/Tests.antt =====
-- data/: examples, with patterns that match only themselves.
use security_go.Shared.{some, none, [], ◌∷◌, if◌then◌else◌}
use security_go.Security.{Regexp, critical, medium}
use security_go.Security.Grading.{Grades}
use security_go.Data.Deserialization.{php_medium_patterns, ordered_languages}
use security_go.Data.Deserialization
use security_go.Data.Languages.{language_patterns, deserialization-Grades}
use security_go.Data.JwtAttack.{Packages, detect}
use text.Mathlib.Text.{◌==◌}

-- Each pattern matches the text that it is, and no other.
abbrev literally : Regexp
literally = record {
  match_string = λ pattern text. pattern == text;
  find_string = λ pattern text. if pattern == text then text else "";
}

deserialization-Grades_example :
    Grades literally "__reduce__\\s*\\("
      (language_patterns ordered_languages)
      php_medium_patterns
      critical
      medium
      (Deserialization.detect literally "__reduce__\\s*\\(")
deserialization-Grades_example = deserialization-Grades literally "__reduce__\\s*\\("

-- Packages that know one token, of three parts with an empty signature.
abbrev one_token : Packages
one_token = record {
  trim_space = λ s. s;
  split_dots = λ s. if s == "h.p." then "h" ∷ "p" ∷ "" ∷ [] else s ∷ [];
  trim_equals = λ s. s;
  decode_url = λ s. some s;
  unmarshal = λ s. if s == "h" then some (("alg", some "HS256") ∷ []) else none;
  equal_fold = λ s t. s == t;
  contains = λ s t. s == t;
}
