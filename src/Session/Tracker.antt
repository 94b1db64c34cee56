-- ===== src/Session/Tracker.antt =====
-- session/tracker.go: the tracker's settings, the client's address and network, the keys and
-- encodings of what it stores, and the monad of its operations.
pub mod Running
pub mod Forgetting
pub mod Defaults
pub mod Checks
use Prim.Native.String.{◌++◌}
use text.Mathlib.Text.{◌==◌}
use security_go.Shared.{
  ℕ, ◌+◌, ◌*◌, min, Bool, true, false, not, String, List, [], Option, none, some, Fallible, ok, err,
  if◌then◌else◌, ltb,
}
use security_go.Shared.Int.{ℤ, positive_or}
use security_go.Shared.Time.{Instant, Duration, minute, hour}
use security_go.Security.{Result, clean, high}
use security_go.Session.{Store, Request, Ip, Packages, deny}

-- The settings, without the store, which is an argument of each operation. `country_of` and
-- `token_source` are `none` for a nil function.
pub record Tracker : Type 0 where
  pub ttl : ℤ
  pub subnet_bits : ℤ
  pub country_of : Option (String → String)
  pub known_nets : ℤ
  pub known_net_ttl : ℤ
  pub token_source : Option (Option Request → String)
  pub trust_proxy_headers : Bool
  pub fail_closed : Bool
  pub failures : ℤ
  pub failure_window : ℤ
  pub lockout : ℤ
  pub max_lockout : ℤ
  pub backoff_window : ℤ
  pub stuffing_limit : ℤ

abbrev pub default_ttl : Duration
default_ttl = 30 * minute

abbrev pub default_subnet_bits : ℕ
default_subnet_bits = 24

abbrev pub default_known_nets : ℕ
default_known_nets = 8

abbrev pub default_known_net_ttl : Duration
default_known_net_ttl = 90 * (24 * hour)

abbrev pub default_failures : ℕ
default_failures = 5

abbrev pub default_failure_window : Duration
default_failure_window = 5 * minute

abbrev pub default_lockout : Duration
default_lockout = 15 * minute

abbrev pub default_max_lockout : Duration
default_max_lockout = 24 * hour

abbrev pub default_backoff_window : Duration
default_backoff_window = 24 * hour

abbrev pub default_stuffing_limit : ℕ
default_stuffing_limit = 10

abbrev pub v6_shift : ℕ
v6_shift = 24

abbrev pub ttl : Tracker → Duration
ttl t = positive_or t.ttl default_ttl

abbrev pub subnet_bits : Tracker → ℕ
subnet_bits t = positive_or t.subnet_bits default_subnet_bits

abbrev pub known_nets : Tracker → ℕ
known_nets t = positive_or t.known_nets default_known_nets

abbrev pub known_net_ttl : Tracker → Duration
known_net_ttl t = positive_or t.known_net_ttl default_known_net_ttl

abbrev pub tracker_name : String
tracker_name = "session_guard"

-- An operation on the store: it may fail, and what it did to the store before stays done.
abbrev pub M {ℓ} : Type 0 → Type ℓ → Type ℓ
M S A = S → Fallible A × S

-- What follows a step, unless that failed.
abbrev pub rest_of {ℓ κ} :
    {S : Type 0} {A : Type ℓ} {B : Type κ} → (A → M S B) → Fallible A × S → Fallible B × S
rest_of f (ok a, s) = f a s
rest_of f (err e, s) = (err e, s)

infixl 5 ◌>>=◌ ◌>>◌
abbrev pub ◌>>=◌ {ℓ κ} : {S : Type 0} {A : Type ℓ} {B : Type κ} → M S A → (A → M S B) → M S B
◌>>=◌ m f s = rest_of f (m s)

abbrev pub ◌>>◌ {ℓ} : {S : Type 0} {B : Type ℓ} → M S (Unit {0}) → M S B → M S B
m >> k = m >>= λ _. k

abbrev pub return {ℓ} : {S : Type 0} {A : Type ℓ} → A → M S A
return a s = (ok a, s)

abbrev pub fail {ℓ} : {S : Type 0} {A : Type ℓ} → String → M S A
fail e s = (err e, s)

-- `if test { … }` in front of what follows.
abbrev pub when : {S : Type 0} → Bool → M S (Unit {0}) → M S (Unit {0})
when true m = m
when false m = return tt

-- An `error` for a missing value.
abbrev pub or_fail {ℓ} : {S : Type 0} {A : Type ℓ} → Option A → String → M S A
or_fail none e = fail e
or_fail (some a) e = return a

module _ (p : Packages) where
  unfoldable pub hash_token : String → String
  hash_token token = p.hash token

  abbrev pub session_key : String → String
  session_key token = "sess:" ++ hash_token token

  abbrev pub known_nets_key : String → String
  known_nets_key user = "nets:" ++ user

  abbrev pub failure_key : String → String
  failure_key identity = "fail:" ++ hash_token identity

  abbrev pub lock_key : String → String
  lock_key identity = "lock:" ++ hash_token identity

  abbrev pub strike_key : String → String
  strike_key identity = "strike:" ++ hash_token identity

  abbrev pub stuffing_key : String → String
  stuffing_key ip = "stuff:" ++ hash_token ip

  -- The address behind a proxy, from the two headers.
  forwarded_ip : String → Option Ip
  forwarded_ip xff = if xff == "" then none else p.parse_ip (p.trim_space (p.before_comma xff))

  real_ip : Request → Option Ip
  real_ip r = p.parse_ip (p.trim_space (r.header "X-Real-IP"))

  proxy_ip : Request → Option Ip
  unfolding forwarded_ip real_ip
  proxy_ip r = elim (forwarded_ip (r.header "X-Forwarded-For")) [
    | some ip ↦ some ip
    | none ↦ real_ip r
  ]

  peer_ip : Request → String
  peer_ip r = elim (p.split_host r.remote_addr) [ none ↦ r.remote_addr | some host ↦ host ]

  unfoldable pub client_ip : Tracker → Option Request → String
  unfolding proxy_ip peer_ip
  client_ip t none = ""
  client_ip t (some r) = elim (if t.trust_proxy_headers then proxy_ip r else none) [
    | some ip ↦ p.show_ip ip
    | none ↦ peer_ip r
  ]

  -- The prefix of an address that counts as one place.
  unfoldable pub network : String → ℕ → String
  network ip bits = elim (p.parse_ip ip) [
    | none ↦ ip
    | some a ↦
        let bits' = if a.is_v4 then min bits 32 else min (bits + v6_shift) 128 in
        p.show_ip (p.mask a bits') ++ ("/" ++ p.itoa bits')
  ]

abbrev pub user_agent : Option Request → String
user_agent none = ""
user_agent (some r) = r.user_agent

abbrev pub fingerprint : Option Request → String
fingerprint none = ""
fingerprint (some r) = r.header "X-Device-Fingerprint"

module _ {S : Type 0} (p : Packages) (store : Store S) where
  -- A list of texts under a key, `[]` for an absent one.
  unfoldable pub load_nets : Instant → String → S → Fallible (List String)
  load_nets now key s = elim (store.load s now key) [
    | err e ↦ err e
    | ok none ↦ ok []
    | ok (some value) ↦ elim (p.unmarshal_texts value) [ none ↦ err "json" | some ids ↦ ok ids ]
  ]

  unfoldable pub save_nets : Instant → String → List String → Duration → M S (Unit {0})
  save_nets now key ids ttl s = elim (p.marshal_texts ids) [
    | none ↦ (err "json", s)
    | some value ↦ store.save s now key value ttl
  ]

-- `storeError`: an outage lets the request through, or stops it under `fail_closed`.
unfoldable pub store_error : Tracker → String → Result
store_error t e =
    if t.fail_closed
    then deny tracker_name "store_error" ("session store unavailable: " ++ e) high
    else clean tracker_name
