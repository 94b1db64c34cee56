-- ===== src/Session/Tracker/Checks.antt =====
-- session/tracker.go: sessions that are bound to a client, and the networks that a user is known from.
--
-- An operation reads the clock once, as `now`. `Check` and `Observe` give a result, and what they did
-- to the store.
pub mod Binding
pub mod Places
pub mod Forgetting
mod Tests
use Prim.Native.String.{◌++◌}
use text.Mathlib.Text.{◌==◌}
use mathlib.Core.List.{◌++◌ as append}
use security_go.Shared.{
  Bool, true, false, not, ◌&&◌, String, List, [], ◌∷◌, Option, none, some, Fallible, ok, err,
  if◌then◌else◌,
}
use security_go.Shared.Time.{Instant}
use security_go.Security.{Result, clean, high, critical}
use security_go.Session.{Store, Session, Request, Packages, deny}
use security_go.Session.Tracker.{
  Tracker, M, fail, tracker_name, ttl, subnet_bits, known_nets, known_net_ttl, session_key,
  known_nets_key, client_ip, network, user_agent, fingerprint, load_nets, save_nets, store_error,
}
use security_go.Session.Lockout.{locked}
use security_go.Session.BruteForce.{contains, last}

-- `err != nil`
abbrev pub is_err : Fallible (Unit {0}) → Bool
is_err (ok _) = false
is_err (err e) = true

module _ (p : Packages) (t : Tracker) where
  -- The country of an address, where a function for it is set.
  unfoldable pub country_at : String → String
  country_at ip = elim t.country_of [ none ↦ "" | some country_of ↦ country_of ip ]

  unfoldable pub new_session : Instant → Option Request → Session
  unfolding country_at
  new_session now r = record {
    ip = client_ip p t r;
    user_agent = user_agent r;
    fingerprint = fingerprint r;
    country = country_at (client_ip p t r);
    issued_at = now;
    last_seen = now;
  }

  -- The tests of `verify` that may end in a detection.
  unfoldable pub changed_agent : Session → Option Request → Bool
  changed_agent x r = not (x.user_agent == "") && not (user_agent r == x.user_agent)

  unfoldable pub changed_fingerprint : Session → Option Request → Bool
  changed_fingerprint x r =
      not (x.fingerprint == "")
      && (not (fingerprint r == "") && not (fingerprint r == x.fingerprint))

  -- Without a function for countries, `country_at` is empty.
  unfoldable pub changed_country : Session → Option Request → Bool
  unfolding country_at
  changed_country x r =
      let c = country_at (client_ip p t r) in
      not (x.country == "") && (not (c == "") && not (c == x.country))

  unfoldable pub changed_network : Session → Option Request → Bool
  changed_network x r =
      not (network p (client_ip p t r) (subnet_bits t) == network p x.ip (subnet_bits t))

  -- The detection that `verify` returns, if there is one.
  unfoldable pub mismatch : Session → Option Request → Option Result
  unfolding changed_agent changed_fingerprint changed_country changed_network
  mismatch x r =
      if changed_agent x r
      then some (deny tracker_name "client_hijack" "user agent changed for this session" critical)
      else if changed_fingerprint x r
      then some
          (deny tracker_name "client_hijack" "device fingerprint changed for this session" critical)
      else if changed_country x r
      then some (
          deny tracker_name "remote_login"
            ("country changed for this session: "
              ++ (x.country ++ (" -> " ++ country_at (client_ip p t r))))
            critical)
      else if changed_network x r
      then some (
          deny tracker_name "remote_login"
            ("network changed for this session: " ++ (x.ip ++ (" -> " ++ client_ip p t r))) high)
      else none

module _ {S : Type 0} (p : Packages) (store : Store S) (t : Tracker) (now : Instant) where
  unfoldable pub load_session : String → S → Fallible (Option Session)
  load_session token s = elim (store.load s now (session_key p token)) [
    | err e ↦ err e
    | ok none ↦ ok none
    | ok (some value) ↦ elim (p.unmarshal_session value) [
      | none ↦ err "json"
      | some x ↦ ok (some x)
    ]
  ]

  unfoldable pub save_session : String → Session → M S (Unit {0})
  save_session token x s = elim (p.marshal_session x) [
    | none ↦ (err "json", s)
    | some value ↦ store.save s now (session_key p token) value (ttl t)
  ]

  unfoldable pub issue : String → Option Request → M S (Unit {0})
  unfolding new_session save_session
  issue token r =
      if token == ""
      then fail "session: empty token"
      else save_session token (new_session p t now r)

  unfoldable pub revoke : String → M S (Unit {0})
  revoke token s = store.delete s (session_key p token)

  -- The result of an operation whose last save may have failed.
  unfoldable pub after_save : Result → Fallible (Unit {0}) × S → Result × S
  after_save r (ok _, s) = (r, s)
  after_save r (err e, s) = (if t.fail_closed then store_error t e else r, s)

  unfoldable pub verify : Option Request → String → Session → S → Result × S
  unfolding mismatch save_session after_save
  verify r token x s = elim (mismatch p t x r) [
    | some d ↦ (d, s)
    | none ↦ after_save (clean tracker_name) (save_session token (record x { last_seen = now }) s)
  ]

  -- What follows the two reads.
  unfoldable pub check_found :
      Option Request → String → Option Instant → Option Session → S → Result × S
  unfolding verify
  check_found r token (some until) found s = (
    deny tracker_name "token_locked"
        ("token is locked after repeated failed attempts until " ++ p.format_time until) critical,
    s,
  )
  check_found r token none none s =
      (deny tracker_name "unknown_token" "session token is unknown or expired" high, s)
  check_found r token none (some x) s = verify r token x s

  unfoldable pub token_of : Option Request → String
  token_of r = elim t.token_source [ none ↦ "" | some source ↦ source r ]

  unfoldable pub check_token : Option Request → String → S → Result × S
  unfolding load_session check_found
  check_token r token s = elim (load_session token s) [
    | err e ↦ (store_error t e, s)
    | ok found ↦ elim (locked p store now token s) [
      | err e ↦ (store_error t e, s)
      | ok until ↦ check_found r token until found s
    ]
  ]

  unfoldable pub check : Option Request → S → Result × S
  unfolding token_of check_token
  check r s =
      if token_of r == ""
      then (deny tracker_name "missing_token" "request carries no session token" high, s)
      else check_token r (token_of r) s

  -- `none` is the answer 401, before the wrapped handler runs.
  unfoldable pub guard : {A : Type 0} → (S → A × S) → Option Request → S → Option A × S
  unfolding check
  guard next r s =
      let c = check r s in let h = next c.1 in if c.0.detected then (none, c.1) else (some h.0, h.1)

  unfoldable pub here : Option Request → String
  here r = network p (client_ip p t r) (subnet_bits t)

  -- A user's first login never alerts.
  unfoldable pub unseen : Option Request → List String → Result
  unfolding here
  unseen r [] = clean tracker_name
  unseen r (n ∷ nets) =
      deny tracker_name "remote_login" ("login from an unseen network: " ++ here r) high

  -- What follows the load of the known networks.
  unfoldable pub observe_in : String → Option Request → List String → S → Result × S
  unfolding unseen after_save contains last
  observe_in user r nets s =
      if contains (here r) nets
      then (clean tracker_name, s)
      else after_save (unseen r nets) (
          save_nets p store now (known_nets_key p user)
            (last (known_nets t) (append nets (here r ∷ []))) (known_net_ttl t) s)

  unfoldable pub observe : String → Option Request → S → Result × S
  unfolding observe_in
  observe user r s =
      if user == ""
      then (clean tracker_name, s)
      else elim (load_nets p store now (known_nets_key p user) s) [
        | err e ↦ (store_error t e, s)
        | ok nets ↦ observe_in user r nets s
      ]
