-- ===== src/Injection/Command.antt =====
-- injection/command.go: the detector `command_injection`.
use Prim.Native.String.{◌++◌}
use security_go.Shared.{String, List, [], ◌∷◌, true}
use security_go.Security.{Result, Regexp, clean, critical, medium, str}
use security_go.Security.Patterns.{search_two}

abbrev pub name : String
name = "command_injection"

abbrev pub patterns : List String
patterns =
    "\\$\\([^)]*(?:cat|ls|id|whoami|wget|curl|bash|sh|nc|rm|chmod|find|grep|sudo|echo|python|perl|php|/etc/|/bin/|/dev/|/usr/)[^)]*\\)"
    ∷ "(?i)\\|\\s*(?:cat|ls|id|whoami|uname|wget|curl|nc|bash|sh)" ∷ "(?i)/dev/tcp/"
    ∷ "(?i)\\b(?:system|exec|shell_exec|passthru|popen|proc_open|pcntl_exec)\\s*\\(\\s*(?:['\"]|\\$|[0-9])"
    ∷ "(?i)&&\\s*(?:cat|ls|id|whoami|wget|curl)" ∷ "(?i);\\s*(?:cat|ls|id|whoami)"
    ∷ "(?i)\\|\\|\\s*(?:cat|ls|id|whoami|wget|curl|nc|bash|sh|echo|rm|mv|chmod|cp|touch|kill|mkdir|pkill|reboot|shutdown)"
    ∷ []

abbrev pub medium_patterns : List String
medium_patterns =
    "`[^`]+`" ∷ "(?i)%0a" ∷ "(?i)\\bping\\s+-c" ∷ "(?i)\\bnslookup\\s+" ∷ ">/dev/null" ∷ []

abbrev pub found : String → String → Result
found input m = record {
  name = name;
  detected = true;
  message = "Command injection pattern detected: " ++ m;
  severity = critical;
  details = ("pattern", str m) ∷ [];
}

abbrev pub suspicious : String → String → Result
suspicious input m = record {
  name = name;
  detected = true;
  message = "Suspicious command pattern detected: " ++ m;
  severity = medium;
  details = ("pattern", str m) ∷ [];
}

unfoldable pub detect : Regexp → String → Result
unfolding search_two
detect rx input =
    search_two rx input patterns (found input) medium_patterns (suspicious input) (clean name)
