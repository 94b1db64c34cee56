-- ===== src/All/Tests.antt =====
-- all/all.go: an example with patterns that match only themselves.
use security_go.Shared.{All, [], ◌∷◌, some, if◌then◌else◌}
use security_go.Security.{Regexp}
use security_go.Security.Engine.{detect}
use security_go.Data.JwtAttack.{Packages}
use security_go.All.Grading.{searching_detectors, detect-Grades}
use security_go.Security.Grading.{Grades}
use text.Mathlib.Text.{◌==◌}

abbrev literally : Regexp
literally = record {
  match_string = λ pattern text. pattern == text;
  find_string = λ pattern text. if pattern == text then text else "";
}

abbrev whole : Packages
whole = record {
  trim_space = λ s. s;
  split_dots = λ s. s ∷ [];
  trim_equals = λ s. s;
  decode_url = λ s. some s;
  unmarshal = λ s. some [];
  equal_fold = λ s t. s == t;
  contains = λ s t. s == t;
}

detect-Grades_example :
    All
      (λ s.
        Grades literally "(?i)<script" s.patterns s.medium_patterns s.grade s.medium_grade
          (s.detect "(?i)<script"))
      (searching_detectors literally)
detect-Grades_example = detect-Grades literally "(?i)<script"
