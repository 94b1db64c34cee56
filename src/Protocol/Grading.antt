-- ===== src/Protocol/Grading.antt =====
-- protocol/: what the detectors report that search lists of patterns.
use security_go.Shared.{refl, String, []}
use security_go.Security.{Regexp, critical, high, medium}
use security_go.Security.Grading.{Grades, search_one-Grades}
use security_go.Protocol.Ssrf
use security_go.Protocol.Xxe
use security_go.Protocol.HeaderInjection
use security_go.Protocol.HostHeader
use security_go.Protocol.RequestSmuggling
use security_go.Protocol.OpenRedirect
use security_go.Protocol.Cors
use security_go.Protocol.WebSocket
use security_go.Protocol.DnsRebinding

module _ (rx : Regexp) (input : String) where
  -- Each detector of the package that searches lists of patterns reports an input exactly if one of
  -- its patterns matches, with the severity of the first of its lists that has such a pattern.
  pub protocol_detect-Grades :
      Grades rx input Ssrf.patterns [] high high (Ssrf.detect rx input)
      × Grades rx input Xxe.patterns [] high high (Xxe.detect rx input)
      × Grades rx input HeaderInjection.patterns [] high high (HeaderInjection.detect rx input)
      × Grades rx input HostHeader.patterns [] medium medium (HostHeader.detect rx input)
      × Grades rx input RequestSmuggling.patterns [] critical critical
          (RequestSmuggling.detect rx input)
      × Grades rx input OpenRedirect.patterns [] medium medium (OpenRedirect.detect rx input)
      × Grades rx input Cors.patterns [] medium medium (Cors.detect rx input)
      × Grades rx input WebSocket.patterns [] medium medium (WebSocket.detect rx input)
      × Grades rx input DnsRebinding.patterns [] high high (DnsRebinding.detect rx input)
  unfolding Ssrf.detect Xxe.detect HeaderInjection.detect HostHeader.detect RequestSmuggling.detect
      OpenRedirect.detect Cors.detect WebSocket.detect DnsRebinding.detect
  protocol_detect-Grades = (
    search_one-Grades rx input Ssrf.name Ssrf.patterns high (Ssrf.found input) (λ p. refl)
        (λ p. refl),
    search_one-Grades rx input Xxe.name Xxe.patterns high (Xxe.found input) (λ p. refl) (λ p. refl),
    search_one-Grades rx input HeaderInjection.name HeaderInjection.patterns high
        (HeaderInjection.found input) (λ p. refl) (λ p. refl),
    search_one-Grades rx input HostHeader.name HostHeader.patterns medium (HostHeader.found input)
        (λ p. refl) (λ p. refl),
    search_one-Grades rx input RequestSmuggling.name RequestSmuggling.patterns critical
        (RequestSmuggling.found input) (λ p. refl) (λ p. refl),
    search_one-Grades rx input OpenRedirect.name OpenRedirect.patterns medium
        (OpenRedirect.found input) (λ p. refl) (λ p. refl),
    search_one-Grades rx input Cors.name Cors.patterns medium (Cors.found input) (λ p. refl)
        (λ p. refl),
    search_one-Grades rx input WebSocket.name WebSocket.patterns medium (WebSocket.found input)
        (λ p. refl) (λ p. refl),
    search_one-Grades rx input DnsRebinding.name DnsRebinding.patterns high
        (DnsRebinding.found input) (λ p. refl) (λ p. refl),
  )
