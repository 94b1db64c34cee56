-- ===== src/Storage.antt =====
-- storage/storage.go: the pluggable counter and ban storage behind IP blacklisting and replay checks.
--
-- A backend is a record of its five methods over the type of its state. A method that reads the
-- clock takes the reading as an argument, `now`. Windows and ban durations are not negative.
pub mod Memory
pub mod Redis
pub mod File
pub mod IpBlacklist
use security_go.Shared.{ℕ, Bool, String, List, [], ◌∷◌, Fallible}
use security_go.Shared.Time.{Instant, Duration}

pub record Backend (S : Type 0) : Type 0 where
  pub incr : S → Instant → String → Duration → Fallible ℕ × S
  pub get : S → Instant → String → Fallible ℕ
  pub block : S → Instant → String → Duration → Fallible (Unit {0}) × S
  pub is_blocked : S → Instant → String → Fallible Bool
  pub close : S → Instant → Fallible (Unit {0}) × S

-- A call of a client, and the answer to it.
pub data Call : Type 0 where
  incr : String → Duration → Call
  get : String → Call
  block : String → Duration → Call
  is_blocked : String → Call

pub data Reply : Type 0 where
  count : Fallible ℕ → Reply
  done : Fallible (Unit {0}) → Reply
  blocked : Fallible Bool → Reply

module _ {S : Type 0} (b : Backend S) where
  unfoldable pub call : S → Instant → Call → Reply × S
  call s now (incr key window) = let r = b.incr s now key window in (count r.0, r.1)
  call s now (get key) = (count (b.get s now key), s)
  call s now (block key duration) = let r = b.block s now key duration in (done r.0, r.1)
  call s now (is_blocked key) = (blocked (b.is_blocked s now key), s)

  -- A client's calls, each at its time, and the answers.
  unfoldable pub calls : S → List (Instant × Call) → List Reply
  unfolding call
  calls s [] = []
  calls s ((now, c) ∷ cs) = let r = call s now c in r.0 ∷ calls r.1 cs
