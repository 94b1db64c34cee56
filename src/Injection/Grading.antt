-- ===== src/Injection/Grading.antt =====
-- injection/: what the detectors report that search lists of patterns.
use security_go.Shared.{refl, String, []}
use security_go.Security.{Regexp, critical, high, medium}
use security_go.Security.Grading.{Grades, search_one-Grades, search_two-Grades}
use security_go.Injection.Xss
use security_go.Injection.Sql
use security_go.Injection.Command
use security_go.Injection.Nosql
use security_go.Injection.Ldap
use security_go.Injection.Xpath
use security_go.Injection.Jndi
use security_go.Injection.Ssi
use security_go.Injection.Graphql
use security_go.Injection.Ssti

module _ (rx : Regexp) (input : String) where
  -- Each detector of the package that searches lists of patterns reports an input exactly if one of
  -- its patterns matches, with the severity of the first of its lists that has such a pattern.
  pub injection_detect-Grades :
      Grades rx input Xss.patterns Xss.medium_patterns high medium (Xss.detect rx input)
      × Grades rx input Sql.patterns Sql.medium_patterns critical medium (Sql.detect rx input)
      × Grades rx input Command.patterns Command.medium_patterns critical medium
          (Command.detect rx input)
      × Grades rx input Nosql.patterns [] high high (Nosql.detect rx input)
      × Grades rx input Ldap.patterns [] high high (Ldap.detect rx input)
      × Grades rx input Xpath.patterns Xpath.medium_patterns high medium (Xpath.detect rx input)
      × Grades rx input Jndi.patterns Jndi.medium_patterns critical medium (Jndi.detect rx input)
      × Grades rx input Ssi.patterns [] high high (Ssi.detect rx input)
      × Grades rx input Graphql.patterns [] medium medium (Graphql.detect rx input)
      × Grades rx input Ssti.patterns Ssti.medium_patterns critical medium (Ssti.detect rx input)
  unfolding Xss.detect Sql.detect Command.detect Nosql.detect Ldap.detect Xpath.detect Jndi.detect
      Ssi.detect Graphql.detect Ssti.detect
  injection_detect-Grades = (
    search_two-Grades rx input Xss.name Xss.medium_patterns medium (Xss.suspicious input)
        (λ p. refl) (λ p. refl) Xss.patterns high (Xss.found input) (λ p. refl) (λ p. refl),
    search_two-Grades rx input Sql.name Sql.medium_patterns medium (Sql.suspicious input)
        (λ p. refl) (λ p. refl) Sql.patterns critical (Sql.found input) (λ p. refl) (λ p. refl),
    search_two-Grades rx input Command.name Command.medium_patterns medium
        (Command.suspicious input) (λ p. refl) (λ p. refl) Command.patterns critical
        (Command.found input) (λ p. refl) (λ p. refl),
    search_one-Grades rx input Nosql.name Nosql.patterns high (Nosql.found input) (λ p. refl)
        (λ p. refl),
    search_one-Grades rx input Ldap.name Ldap.patterns high (Ldap.found input) (λ p. refl)
        (λ p. refl),
    search_two-Grades rx input Xpath.name Xpath.medium_patterns medium (Xpath.suspicious input)
        (λ p. refl) (λ p. refl) Xpath.patterns high (Xpath.found input) (λ p. refl) (λ p. refl),
    search_two-Grades rx input Jndi.name Jndi.medium_patterns medium (Jndi.suspicious input)
        (λ p. refl) (λ p. refl) Jndi.patterns critical (Jndi.found input) (λ p. refl) (λ p. refl),
    search_one-Grades rx input Ssi.name Ssi.patterns high (Ssi.found input) (λ p. refl) (λ p. refl),
    search_one-Grades rx input Graphql.name Graphql.patterns medium (Graphql.found input)
        (λ p. refl) (λ p. refl),
    search_two-Grades rx input Ssti.name Ssti.medium_patterns medium (Ssti.suspicious input)
        (λ p. refl) (λ p. refl) Ssti.patterns critical (Ssti.found input) (λ p. refl) (λ p. refl),
  )
