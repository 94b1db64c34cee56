-- ===== src/Data/Grading.antt =====
-- data/: what the detectors report that search lists of patterns.
use security_go.Shared.{refl, String, []}
use security_go.Security.{Regexp, critical, high, medium}
use security_go.Security.Grading.{Grades, search_one-Grades, search_two-Grades}
use security_go.Data.CsvInjection
use security_go.Data.MailHeader
use security_go.Data.PrototypePollution

module _ (rx : Regexp) (input : String) where
  -- Each detector of the package that searches lists of patterns reports an input exactly if one of
  -- its patterns matches, with the severity of the first of its lists that has such a pattern.
  pub data_detect-Grades :
      Grades rx input CsvInjection.patterns [] high high (CsvInjection.detect rx input)
      × Grades rx input MailHeader.patterns [] critical critical (MailHeader.detect rx input)
      × Grades rx input PrototypePollution.patterns PrototypePollution.medium_patterns critical
          medium
          (PrototypePollution.detect rx input)
  unfolding CsvInjection.detect MailHeader.detect PrototypePollution.detect
  data_detect-Grades = (
    search_one-Grades rx input CsvInjection.name CsvInjection.patterns high
        (CsvInjection.found input) (λ p. refl) (λ p. refl),
    search_one-Grades rx input MailHeader.name MailHeader.patterns critical (MailHeader.found input)
        (λ p. refl) (λ p. refl),
    search_two-Grades rx input PrototypePollution.name PrototypePollution.medium_patterns medium
        (PrototypePollution.suspicious input) (λ p. refl) (λ p. refl) PrototypePollution.patterns
        critical (PrototypePollution.found input) (λ p. refl) (λ p. refl),
  )
