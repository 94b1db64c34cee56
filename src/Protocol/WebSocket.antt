-- ===== src/Protocol/WebSocket.antt =====
-- protocol/websocket.go: the detector `websocket`.
use security_go.Shared.{String, List, [], ◌∷◌, true}
use security_go.Security.{Result, Regexp, clean, medium, str}
use security_go.Security.Patterns.{search_one}

abbrev pub name : String
name = "websocket"

abbrev pub patterns : List String
patterns =
    "(?i)Upgrade:\\s*websocket" ∷ "(?i)Connection:\\s*Upgrade" ∷ "(?i)Sec-WebSocket-Key:\\s*"
    ∷ "ws://" ∷ "wss://" ∷ "(?i)Origin:\\s*null.*Upgrade:\\s*websocket" ∷ []

abbrev pub found : String → String → Result
found input m = record {
  name = name;
  detected = true;
  message = "WebSocket hijacking pattern detected: potential cross-site WebSocket hijack";
  severity = medium;
  details = ("matched_pattern", str m) ∷ ("input", str input) ∷ [];
}

unfoldable pub detect : Regexp → String → Result
unfolding search_one
detect rx input = search_one rx input patterns (found input) (clean name)
