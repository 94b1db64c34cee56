-- ===== src/Data/MailHeader.antt =====
-- data/mail_header.go: the detector `mail_header`.
use Prim.Native.String.{◌++◌}
use security_go.Shared.{String, List, [], ◌∷◌, true}
use security_go.Security.{Result, Regexp, clean, critical, str}
use security_go.Security.Patterns.{search_one}

abbrev pub name : String
name = "mail_header"

abbrev pub patterns : List String
patterns =
    "(?i)\\n\\s*(?:Bcc|Cc|To|From|Reply-To|Subject|Content-Type|MIME-Version):\\s*"
    ∷ "(?i)%0[dD]%0[aA](?:Bcc|Cc|To|From|Reply-To):" ∷ "(?i)\\r\\n(?:Bcc|Cc|To|From|Reply-To):"
    ∷ "(?i)Content-Type:\\s*multipart/" ∷ "(?i)boundary=" ∷ []

abbrev pub found : String → String → Result
found input m = record {
  name = name;
  detected = true;
  message = "Mail header injection pattern detected: " ++ m;
  severity = critical;
  details = ("pattern", str m) ∷ [];
}

unfoldable pub detect : Regexp → String → Result
unfolding search_one
detect rx input = search_one rx input patterns (found input) (clean name)
