-- ===== src/All/Grading.antt =====
-- injection/, protocol/, data/ and file/: what the detectors that search lists of patterns report.
use security_go.Shared.{String, List, [], ◌∷◌, All}
use security_go.Security.{Regexp, Result, Severity, medium, high, critical}
use security_go.Security.Grading.{Grades}
use security_go.Injection
use security_go.Injection.Grading.{injection_detect-Grades}
use security_go.Protocol
use security_go.Protocol.Grading.{protocol_detect-Grades}
use security_go.Data
use security_go.Data.Grading.{data_detect-Grades}
use security_go.FileChecks
use security_go.FileChecks.Grading.{file_detect-Grades}

-- A detector with its two lists of patterns and their severities.
pub record Searching : Type 0 where
  pub patterns : List String
  pub medium_patterns : List String
  pub grade : Severity
  pub medium_grade : Severity
  pub detect : String → Result

abbrev searching : List String → List String → Severity → Severity → (String → Result) → Searching
searching patterns medium_patterns grade medium_grade detect = record {
  patterns = patterns;
  medium_patterns = medium_patterns;
  grade = grade;
  medium_grade = medium_grade;
  detect = detect;
}

abbrev pub searching_detectors : Regexp → List Searching
searching_detectors rx =
    searching Injection.Xss.patterns Injection.Xss.medium_patterns high medium
      (Injection.Xss.detect rx)
    ∷ searching Injection.Sql.patterns Injection.Sql.medium_patterns critical medium
        (Injection.Sql.detect rx)
    ∷ searching Injection.Command.patterns Injection.Command.medium_patterns critical medium
        (Injection.Command.detect rx)
    ∷ searching Injection.Nosql.patterns [] high high (Injection.Nosql.detect rx)
    ∷ searching Injection.Ldap.patterns [] high high (Injection.Ldap.detect rx)
    ∷ searching Injection.Xpath.patterns Injection.Xpath.medium_patterns high medium
        (Injection.Xpath.detect rx)
    ∷ searching Injection.Jndi.patterns Injection.Jndi.medium_patterns critical medium
        (Injection.Jndi.detect rx)
    ∷ searching Injection.Ssi.patterns [] high high (Injection.Ssi.detect rx)
    ∷ searching Injection.Graphql.patterns [] medium medium (Injection.Graphql.detect rx)
    ∷ searching Injection.Ssti.patterns Injection.Ssti.medium_patterns critical medium
        (Injection.Ssti.detect rx)
    ∷ searching Protocol.Ssrf.patterns [] high high (Protocol.Ssrf.detect rx)
    ∷ searching Protocol.Xxe.patterns [] high high (Protocol.Xxe.detect rx)
    ∷ searching Protocol.HeaderInjection.patterns [] high high (Protocol.HeaderInjection.detect rx)
    ∷ searching Protocol.HostHeader.patterns [] medium medium (Protocol.HostHeader.detect rx)
    ∷ searching Protocol.RequestSmuggling.patterns [] critical critical
        (Protocol.RequestSmuggling.detect rx)
    ∷ searching Protocol.OpenRedirect.patterns [] medium medium (Protocol.OpenRedirect.detect rx)
    ∷ searching Protocol.Cors.patterns [] medium medium (Protocol.Cors.detect rx)
    ∷ searching Protocol.WebSocket.patterns [] medium medium (Protocol.WebSocket.detect rx)
    ∷ searching Protocol.DnsRebinding.patterns [] high high (Protocol.DnsRebinding.detect rx)
    ∷ searching Data.CsvInjection.patterns [] high high (Data.CsvInjection.detect rx)
    ∷ searching Data.MailHeader.patterns [] critical critical (Data.MailHeader.detect rx)
    ∷ searching Data.PrototypePollution.patterns Data.PrototypePollution.medium_patterns critical
        medium (Data.PrototypePollution.detect rx)
    ∷ searching FileChecks.PathTraversal.patterns FileChecks.PathTraversal.medium_patterns high
        medium (FileChecks.PathTraversal.detect rx)
    ∷ searching FileChecks.Upload.malicious_content_patterns FileChecks.Upload.code_eval_patterns
        high medium (FileChecks.Upload.detect rx)
    ∷ []

-- Each of the twenty-four detectors that search lists of patterns reports an input exactly if one of its
-- patterns matches, with the severity of the first of its lists that has such a pattern.
pub detect-Grades :
    (rx : Regexp) (input : String)
    → All
        (λ s. Grades rx input s.patterns s.medium_patterns s.grade s.medium_grade (s.detect input))
        (searching_detectors rx)
detect-Grades rx input =
    let (x0, x1, x2, x3, x4, x5, x6, x7, x8, x9) = injection_detect-Grades rx input in
    let (x10, x11, x12, x13, x14, x15, x16, x17, x18) = protocol_detect-Grades rx input in
    let (x19, x20, x21) = data_detect-Grades rx input in
    let (x22, x23) = file_detect-Grades rx input in
    (
      x0,
      (
        x1,
        (
          x2,
          (
            x3,
            (
              x4,
              (
                x5,
                (
                  x6,
                  (
                    x7,
                    (
                      x8,
                      (
                        x9,
                        (
                          x10,
                          (
                            x11,
                            (
                              x12,
                              (
                                x13,
                                (
                                  x14,
                                  (x15, (x16, (x17, (x18, (x19, (x20, (x21, (x22, (x23, tt))))))))),
                                ),
                              ),
                            ),
                          ),
                        ),
                      ),
                    ),
                  ),
                ),
              ),
            ),
          ),
        ),
      ),
    )
