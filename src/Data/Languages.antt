-- ===== src/Data/Languages.antt =====
-- data/deserialization.go: what the scan of the languages reports.
use security_go.Shared.{refl, String, List, [], ◌∷◌, ◌++◌}
use security_go.Security.{Regexp, Result, critical, medium, clean}
use security_go.Security.Patterns.{search_one}
use security_go.Security.Grading.{Grades, search_one-Grades, prepend-Grades, demote-Grades}
use security_go.Data.Deserialization.{
  name, ordered_languages, php_medium_patterns, found, suspicious, scan_languages, detect,
}

-- The patterns of all the languages.
abbrev pub language_patterns : List (String × List String) → List String
language_patterns [] = []
language_patterns ((language, patterns) ∷ languages) = patterns ++ language_patterns languages

module _ (rx : Regexp) (input : String) where
  scan_languages-Grades :
      (weak : List String) (nothing : Result)
      → Grades rx input [] weak critical medium nothing
      → (languages : List (String × List String))
      → Grades rx input
          (language_patterns languages)
          weak
          critical
          medium
          (scan_languages rx input languages nothing)
  unfolding scan_languages
  scan_languages-Grades weak nothing g [] = g
  scan_languages-Grades weak nothing g ((language, patterns) ∷ languages) =
      prepend-Grades rx input (language_patterns languages) weak patterns critical medium
        (found language) (scan_languages rx input languages nothing) (λ p. refl) (λ p. refl)
        (scan_languages-Grades weak nothing g languages)

  -- An input is reported exactly if a pattern of some language or the medium list matches: as
  -- critical if one of a language does, and else as medium.
  pub deserialization-Grades :
      Grades rx input
        (language_patterns ordered_languages)
        php_medium_patterns
        critical
        medium
        (detect rx input)
  unfolding detect
  deserialization-Grades =
      scan_languages-Grades php_medium_patterns
        (search_one rx input php_medium_patterns suspicious (clean name))
        (demote-Grades rx input php_medium_patterns critical medium
          (search_one rx input php_medium_patterns suspicious (clean name))
          (search_one-Grades rx input name php_medium_patterns medium suspicious (λ p. refl)
            (λ p. refl)))
        ordered_languages
