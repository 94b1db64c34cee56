-- ===== src/Storage/IpBlacklist.antt =====
-- httpval/ip_blacklist.go: bans an address that attacks too often, over any storage backend.
pub mod Threshold
pub mod Racing
mod Tests
use Prim.Native.String
use security_go.Shared.{
  ℕ, ◌*◌, Bool, true, false, String, [], Fallible, ok, err, leb, if◌then◌else◌,
}
use security_go.Shared.Time.{Instant, Duration, second, minute}
use security_go.Security.{Result, clean, high}
use security_go.Storage.{Backend}

-- The settings; `storage` is a parameter of the methods. A threshold below 0 acts as 0.
pub record IpBlacklist : Type 0 where
  pub threshold : ℕ
  pub window : Duration
  pub ban_duration : Duration

unfoldable pub new_ip_blacklist : IpBlacklist
new_ip_blacklist = record { threshold = 5; window = 60 * second; ban_duration = 15 * minute }

abbrev pub ip_blacklist_name : String
ip_blacklist_name = "ip_blacklist"

module _ {S : Type 0} (storage : Backend S) (b : IpBlacklist) where
  unfoldable pub detect : S → Instant → String → Result
  detect s now input = elim (storage.is_blocked s now input) [
    | err e ↦ clean ip_blacklist_name
    | ok blocked ↦
        if blocked
        then record {
          name = ip_blacklist_name;
          detected = true;
          message = String.◌++◌ "IP is blocked: " input;
          severity = high;
          details = [];
        }
        else clean ip_blacklist_name
  ]

  -- The ban that follows when the threshold is reached.
  unfoldable pub ban : S → Instant → String → Fallible Bool × S
  ban s now ip =
      let r = storage.block s now ip b.ban_duration in
      elim r.0 [ err e ↦ (err e, r.1) | ok _ ↦ (ok true, r.1) ]

  unfoldable pub record_attack : S → Instant → String → Fallible Bool × S
  unfolding ban
  record_attack s now ip =
      let r = storage.incr s now ip b.window in
      elim r.0 [
        | err e ↦ (err e, r.1)
        | ok count ↦ if leb b.threshold count then ban r.1 now ip else (ok false, r.1)
      ]
