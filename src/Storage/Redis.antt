-- ===== src/Storage/Redis.antt =====
-- storage/redis/redis.go: counters and bans in a Redis server.
--
-- The server is an argument: the commands that the client library sends to it, and its answers. A script
-- runs in the server as a whole. Windows and durations are not negative.
pub mod Window
mod Tests
use Prim.Native.String.{◌++◌}
use security_go.Shared.{
  ℕ, ◌+◌, ◌*◌, ◌/◌, Bool, String, Option, none, some, Fallible, ok, err, ltb, ◌==◌, if◌then◌else◌,
}
use security_go.Shared.Time.{Instant, Duration}
use security_go.Storage.{Backend}

-- `get` is `none` where the client library answers `redis.Nil`. `expiry` of `set` is the duration after
-- which the key is gone, with 0 for never.
pub record Server (S : Type 0) : Type 0 where
  pub incr_key : S → Instant → String → Fallible ℕ × S
  pub pexpire : S → Instant → String → (milliseconds : ℕ) → Fallible (Unit {0}) × S
  pub get : S → Instant → String → Fallible (Option ℕ)
  pub set : S → Instant → String → (value : String) → (expiry : Duration) → Fallible (Unit {0}) × S
  pub exists : S → Instant → String → Fallible ℕ
  pub close : S → Instant → Fallible (Unit {0}) × S

abbrev pub millisecond : Duration
millisecond = 1_000_000

abbrev pub blocked_prefix : String
blocked_prefix = "blocked:"

module _ {S : Type 0} (server : Server S) where
  -- The script after the count: the first one sets the window.
  unfoldable pub start_window : ℕ → S → Instant → String → ℕ → Fallible ℕ × S
  start_window n s now key ms =
      if n == 1
      then (let r = server.pexpire s now key ms in (elim r.0 [ err e ↦ err e | ok _ ↦ ok n ], r.1))
      else (ok n, s)

  unfoldable pub incr_window_script : S → Instant → String → ℕ → Fallible ℕ × S
  unfolding start_window
  incr_window_script s now key ms =
      let r = server.incr_key s now key in
      elim r.0 [ err e ↦ (err e, r.1) | ok n ↦ start_window n r.1 now key ms ]

  unfoldable pub incr : S → Instant → String → Duration → Fallible ℕ × S
  unfolding incr_window_script
  incr s now key window = incr_window_script s now key (window / millisecond)

  unfoldable pub get : S → Instant → String → Fallible ℕ
  get s now key = elim (server.get s now key) [
    | err e ↦ err e
    | ok none ↦ ok 0
    | ok (some n) ↦ ok n
  ]

  unfoldable pub block : S → Instant → String → Duration → Fallible (Unit {0}) × S
  block s now key duration = server.set s now (blocked_prefix ++ key) "1" duration

  unfoldable pub is_blocked : S → Instant → String → Fallible Bool
  is_blocked s now key = elim (server.exists s now (blocked_prefix ++ key)) [
    | err e ↦ err e
    | ok n ↦ ok (ltb 0 n)
  ]

  unfoldable pub close : S → Instant → Fallible (Unit {0}) × S
  close s now = server.close s now

  unfoldable pub redis_backend : Backend S
  unfolding incr get block is_blocked close
  redis_backend = record {
    incr = incr;
    get = get;
    block = block;
    is_blocked = is_blocked;
    close = close;
  }
