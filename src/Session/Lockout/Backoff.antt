-- ===== src/Session/Lockout/Backoff.antt =====
-- session/bruteforce.go: the lockout that doubles with each crossing of the threshold.
use native.Mathlib.Nat.{pow-suc}
use security_go.Shared.{
  ℕ, zero, suc, ◌+◌, ◌*◌, ◌/◌, ◌%◌, ◌^◌, ◌-◌, ◌≤◌, ◌≡◌, min, arith, Bool-cases, inl, inr, leb,
  leb→le,
}
use security_go.Shared.Time.{Duration}
use security_go.Session.Tracker.{Tracker}
use security_go.Session.Lockout.{double_up_to, lock_for, lockout_duration, max_lockout}

pow-pos : (r : ℕ) → 1 ≤ 2 ^ r
pow-pos zero = omega arith
pow-pos (suc r) = omega (arith, pow-suc 2 r, pow-pos r)

le-mul_pow : (d r : ℕ) → d ≤ d * 2 ^ r
le-mul_pow d r = grind (arith, pow-pos r)

double-pow : (d r : ℕ) → d * 2 ^ suc r ≡ (d * 2) * 2 ^ r
double-pow d r = grind (arith, pow-suc 2 r)

-- The loop against doubling and a minimum: never below, above by one nanosecond at most (where the
-- cap is odd), and not at all above where the cap is even.
abbrev Capped : Duration → ℕ → Duration → Duration → Type 0
Capped max rounds d r = (min max (d * 2 ^ rounds) ≤ r) × (r ≤ min max (d * 2 ^ rounds) + max % 2)

double_up_to-Capped : (max rounds d : ℕ) → Capped max rounds d (double_up_to max rounds d)
unfolding double_up_to
double_up_to-Capped max zero d = ground arith
double_up_to-Capped max (suc rounds) d = elim (Bool-cases (leb (max / 2) d)) [
  | inl half ↦ rw half (
    omega arith,
    omega (arith, double-pow d rounds, le-mul_pow (d * 2) rounds, leb→le (max / 2) d half),
  )
  | inr below ↦ rw (below, double-pow d rounds) (double_up_to-Capped max rounds (d * 2))
]

double_up_to-le : (max rounds d : ℕ) → double_up_to max rounds d ≤ max
unfolding double_up_to
double_up_to-le max zero d = ground arith
double_up_to-le max (suc rounds) d = ground (arith, double_up_to-le max rounds (d * 2))

-- The lockout after `strikes` crossings is the base, doubled for each crossing after the first, or
-- the cap where that is less; with an odd cap it may be one nanosecond more, and it never exceeds
-- the cap.
pub lock_for-doubles :
    (t : Tracker) (strikes : ℕ)
    → (lock_for t strikes ≤ max_lockout t)
      × (min (max_lockout t) (lockout_duration t * 2 ^ (strikes - 1)) ≤ lock_for t strikes)
      × (lock_for t strikes
          ≤ min (max_lockout t) (lockout_duration t * 2 ^ (strikes - 1)) + max_lockout t % 2)
unfolding lock_for
lock_for-doubles t strikes = (
  double_up_to-le (max_lockout t) (strikes - 1) (lockout_duration t),
  (double_up_to-Capped (max_lockout t) (strikes - 1) (lockout_duration t)).0,
  (double_up_to-Capped (max_lockout t) (strikes - 1) (lockout_duration t)).1,
)

double_up_to_mono : (max rounds d : ℕ) → double_up_to max rounds d ≤ double_up_to max (suc rounds) d
unfolding double_up_to
double_up_to_mono max zero d = ground arith
double_up_to_mono max (suc rounds) d = ground (arith, double_up_to_mono max rounds (d * 2))

-- Another crossing never shortens the lockout.
pub lock_for_mono : (t : Tracker) (strikes : ℕ) → lock_for t strikes ≤ lock_for t (suc strikes)
unfolding lock_for
lock_for_mono t zero = omega arith
lock_for_mono t (suc rounds) =
    let e : suc rounds - 1 ≡ rounds = omega arith in
    let e' : suc (suc rounds) - 1 ≡ suc rounds = omega arith in
    rw (e, e') (double_up_to_mono (max_lockout t) rounds (lockout_duration t))
