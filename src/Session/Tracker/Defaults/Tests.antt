-- ===== src/Session/Tracker/Defaults/Tests.antt =====
-- session/tracker.go: tokens of a bearer header and of a cookie.
use text.Mathlib.Text.{◌==◌}
use security_go.Shared.{Bool, ◌||◌, ◌&&◌, ◌≡◌, refl, String, none, some, if◌then◌else◌}
use security_go.Shared.Text.{size, slice_from, slice_to}
use security_go.Session.{Request}
use security_go.Session.Tracker.Defaults.{credentials, session_cookie, default_token_source}

abbrev fold : String → String → Bool
fold s t = (s == t) || ((s == "Bearer ") || (s == "BEARER ")) && (t == "bearer ")

abbrev with_header : String → Request
with_header h = record {
  header = λ key. if key == "Authorization" then h else "";
  user_agent = "";
  cookie = λ key. if key == "session" then some "c1" else none;
  remote_addr = "";
}

bearer : default_token_source fold (λ s. s) (some (with_header "Bearer t1")) ≡ "t1"
unfolding size slice_from slice_to credentials session_cookie default_token_source
bearer = refl

cookie : default_token_source fold (λ s. s) (some (with_header "Bearer ")) ≡ "c1"
unfolding size slice_from slice_to credentials session_cookie default_token_source
cookie = refl
