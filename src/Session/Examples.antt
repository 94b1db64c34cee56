-- ===== src/Session/Examples.antt =====
-- session/: settings and clients for the examples.
use security_go.Shared.{false, String, Option, none, some, ◌*◌}
use security_go.Shared.Int.{pos}
use security_go.Shared.Time.{second}
use security_go.Session.{Request}
use security_go.Session.Tracker.{Tracker}

-- Nothing is set, so that the defaults apply.
abbrev pub by_default : Tracker
by_default = record {
  ttl = pos 0;
  subnet_bits = pos 0;
  country_of = none;
  known_nets = pos 0;
  known_net_ttl = pos 0;
  token_source = none;
  trust_proxy_headers = false;
  fail_closed = false;
  failures = pos 0;
  failure_window = pos 0;
  lockout = pos 0;
  max_lockout = pos 0;
  backoff_window = pos 0;
  stuffing_limit = pos 0;
}

-- Two failures within a minute lock for four seconds.
abbrev pub two_failures : Tracker
two_failures = record by_default {
  failures = pos 2;
  failure_window = pos (60 * second);
  lockout = pos (4 * second);
  max_lockout = pos (60 * second);
  stuffing_limit = pos 2;
}

abbrev pub from : String → Option Request
from agent =
    some
      (record { header = λ name. ""; user_agent = agent; cookie = λ name. none; remote_addr = "a" })

abbrev pub client : Option Request
client = from ""
