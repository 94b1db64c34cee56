-- ===== src/Protocol/DnsRebinding.antt =====
-- protocol/dns_rebinding.go: the detector `dns_rebinding`.
use security_go.Shared.{String, List, [], ◌∷◌, true}
use security_go.Security.{Result, Regexp, clean, high, str}
use security_go.Security.Patterns.{search_one}

abbrev pub name : String
name = "dns_rebinding"

abbrev pub patterns : List String
patterns =
    "(?i)Host:\\s*(?:127\\.|10\\.|192\\.168\\.|172\\.(?:1[6-9]|2\\d|3[01])\\.)"
    ∷ "(?i)Host:\\s*localhost" ∷ "(?i)Host:\\s*\\[?::1\\]?" ∷ "(?i)Host:\\s*\\w+$"
    ∷ "(?i)Host:\\s*\\d+\\.\\d+\\.\\d+\\.\\d+" ∷ []

abbrev pub found : String → String → Result
found input m = record {
  name = name;
  detected = true;
  message = "DNS rebinding pattern detected: Host header targeting internal network";
  severity = high;
  details = ("matched_pattern", str m) ∷ ("input", str input) ∷ [];
}

unfoldable pub detect : Regexp → String → Result
unfolding search_one
detect rx input = search_one rx input patterns (found input) (clean name)
