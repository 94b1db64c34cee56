-- ===== src/FileChecks/Grading.antt =====
-- file/: what the detectors report that search lists of patterns.
use security_go.Shared.{refl, String}
use security_go.Security.{Regexp, high, medium}
use security_go.Security.Grading.{Grades, search_two-Grades}
use security_go.FileChecks.PathTraversal
use security_go.FileChecks.Upload

module _ (rx : Regexp) (input : String) where
  -- Each detector of the package that searches lists of patterns reports an input exactly if one of
  -- its patterns matches, with the severity of the first of its lists that has such a pattern.
  pub file_detect-Grades :
      Grades rx input PathTraversal.patterns PathTraversal.medium_patterns high medium
        (PathTraversal.detect rx input)
      × Grades rx input Upload.malicious_content_patterns Upload.code_eval_patterns high medium
          (Upload.detect rx input)
  unfolding PathTraversal.detect Upload.detect
  file_detect-Grades = (
    search_two-Grades rx input PathTraversal.name PathTraversal.medium_patterns medium
        (PathTraversal.suspicious input) (λ p. refl) (λ p. refl) PathTraversal.patterns high
        (PathTraversal.found input) (λ p. refl) (λ p. refl),
    search_two-Grades rx input Upload.name Upload.code_eval_patterns medium
        (Upload.suspicious input) (λ p. refl) (λ p. refl) Upload.malicious_content_patterns high
        (Upload.found input) (λ p. refl) (λ p. refl),
  )
