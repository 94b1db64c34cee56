-- ===== src/Session/Tracker/Defaults.antt =====
-- session/tracker.go: a tracker with the default settings, and where it reads the token.
--
-- A header is its bytes here. `strings.EqualFold` and `strings.TrimSpace` are arguments.
mod Tests
use security_go.Shared.{ℕ, Bool, true, false, ◌&&◌, String, Option, none, some, ltb, if◌then◌else◌}
use security_go.Shared.Int.{pos}
use security_go.Shared.Text.{size, slice_from, slice_to}
use security_go.Session.{Request}
use security_go.Session.Tracker.{
  Tracker, default_ttl, default_subnet_bits, default_known_nets, default_known_net_ttl,
  default_failures, default_failure_window, default_lockout, default_max_lockout,
  default_backoff_window, default_stuffing_limit,
}

-- The value of the cookie, if there is one.
unfoldable pub session_cookie : Request → String
session_cookie r = elim (r.cookie "session") [ none ↦ "" | some value ↦ value ]

module _ (equal_fold : String → String → Bool) (trim_space : String → String) where
  -- What stands after the seven bytes of the scheme; the header is longer.
  unfoldable pub credentials : String → String
  credentials h = elim (slice_from 7 h) [ none ↦ "" | some rest ↦ trim_space rest ]

  unfoldable pub default_token_source : Option Request → String
  unfolding credentials session_cookie
  default_token_source none = ""
  default_token_source (some r) =
      let h = r.header "Authorization" in
      if ltb 7 (size h) && equal_fold (slice_to 7 h) "bearer "
      then credentials h
      else session_cookie r

  unfoldable pub new_tracker : Tracker
  new_tracker = record {
    ttl = pos default_ttl;
    subnet_bits = pos default_subnet_bits;
    country_of = none;
    known_nets = pos default_known_nets;
    known_net_ttl = pos default_known_net_ttl;
    token_source = some default_token_source;
    trust_proxy_headers = false;
    fail_closed = false;
    failures = pos default_failures;
    failure_window = pos default_failure_window;
    lockout = pos default_lockout;
    max_lockout = pos default_max_lockout;
    backoff_window = pos default_backoff_window;
    stuffing_limit = pos default_stuffing_limit;
  }
