-- ===== src/Session.antt =====
-- session/: token sessions bound to a client, login lockouts, and signed parameters.
--
-- `Store` is the interface of session/store.go. Packages that the code calls and does not contain
-- are the fields of `Packages`; what they are assumed to do is in `Laws`.
pub mod MemoryStore
pub mod Tracker
pub mod Lockout
pub mod BruteForce
pub mod Release
pub mod Outage
pub mod Signer
pub mod Codec
pub mod Examples
use text.Mathlib.Text.{◌==◌}
use security_go.Shared.{
  ℕ, ◌+◌, ◌*◌, ◌/◌, ◌≡◌, Bool, String, List, Option, none, some, if◌then◌else◌, ltb, Fallible, ok,
  err, [], ◌∷◌, true, ◌&&◌,
}
use security_go.Shared.Int.{ℤ}
use security_go.Shared.Time.{Instant, Duration, second}
use security_go.Security.{Result, Severity, str}

-- The methods of a session store over the type `S` of its state. Values are texts; `none` is the nil
-- value that stands for an absent or expired key.
pub record Store (S : Type 0) : Type 0 where
  pub save : S → Instant → String → String → Duration → Fallible (Unit {0}) × S
  pub load : S → Instant → String → Fallible (Option String)
  pub delete : S → String → Fallible (Unit {0}) × S

-- A store that does not fail: what is saved is read back until its time to live has passed, what is
-- deleted reads as absent, and other keys are left alone.
pub record IsStore {S : Type 0} (store : Store S) : Type 0 where
  pub saves :
      (s : S) (now : Instant) (k value : String) (ttl : Duration)
      → (store.save s now k value ttl).0 ≡ ok tt
  pub load-save :
      (s : S) (now later : Instant) (k j value : String) (ttl : Duration)
      → store.load (store.save s now k value ttl).1 later j ≡ (
          if k == j
          then ok (if ltb (now + ttl) later then none else some value)
          else store.load s later j)
  pub loads :
      (s : S) (now : Instant) (k : String) → (v : Option String) × (store.load s now k ≡ ok v)
  pub deletes : (s : S) (k : String) → (store.delete s k).0 ≡ ok tt
  pub load-delete :
      (s : S) (later : Instant) (k j : String)
      → store.load (store.delete s k).1 later j ≡ (if k == j then ok none else store.load s later j)

-- What a session remembers of its client.
pub record Session : Type 0 where
  pub ip : String
  pub user_agent : String
  pub fingerprint : String
  pub country : String
  pub issued_at : Instant
  pub last_seen : Instant

-- What the code reads of an `*http.Request`.
pub record Request : Type 0 where
  pub header : String → String
  pub user_agent : String
  pub cookie : String → Option String
  pub remote_addr : String

-- An IP address as package net parses it.
pub record Ip : Type 0 where
  pub is_v4 : Bool
  pub address : ℕ

-- Packages crypto/sha256 with encoding/hex (`hash`), strconv, strings, time, encoding/json and net.
-- `atoi` is the number that Atoi returns beside its error; each `marshal` and `parse` is `none` on
-- an error, and `before_comma` the text up to its first comma.
pub record Packages : Type 0 where
  pub hash : String → String
  pub itoa : ℕ → String
  pub atoi : String → ℕ
  pub trim_space : String → String
  pub equal_fold : String → String → Bool
  pub format_time : Instant → String
  pub parse_time : String → Option Instant
  pub marshal_texts : List String → Option String
  pub unmarshal_texts : String → Option (List String)
  pub marshal_session : Session → Option String
  pub unmarshal_session : String → Option Session
  pub parse_ip : String → Option Ip
  pub show_ip : Ip → String
  pub mask : Ip → ℕ → Ip
  pub split_host : String → Option String
  pub before_comma : String → String
  pub valid : String → Bool

-- The documented behaviour of those packages that the theorems rest on. RFC 3339 keeps whole seconds.
-- JSON replaces bytes that are not UTF-8, so a session is read back if its texts are `valid`.
pub record Laws (p : Packages) : Type 0 where
  pub atoi-itoa : (n : ℕ) → p.atoi (p.itoa n) ≡ n
  pub parse_time-format_time :
      (t : Instant) → p.parse_time (p.trim_space (p.format_time t)) ≡ some (t / second * second)
  pub unmarshal_texts-marshal_texts :
      (ids : List String)
      → (value : String) × (p.marshal_texts ids ≡ some value) × (p.unmarshal_texts value ≡ some ids)
  pub unmarshal_session-marshal_session :
      (s : Session)
      → (value : String) × (p.marshal_session s ≡ some value)
        × ((p.valid s.ip && p.valid s.user_agent && p.valid s.fingerprint && p.valid s.country)
              ≡ true
            → p.unmarshal_session value ≡ some s)

-- `deny` builds a positive detection result.
abbrev pub deny : String → String → String → Severity → Result
deny name reason message severity = record {
  name = name;
  detected = true;
  message = message;
  severity = severity;
  details = ("reason", str reason) ∷ [];
}
