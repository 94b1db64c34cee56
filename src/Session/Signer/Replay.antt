-- ===== src/Session/Signer/Replay.antt =====
-- session/tamper.go over storage/memory.go: how often a signature is accepted.
use Prim.Native.String.{◌++◌}
use security_go.Shared.{
  ℕ, ◌+◌, ◌*◌, ◌≤◌, ◌<◌, ◌≡◌, ap, sym, ◌∙◌, inl, inr, true, false, String, List, [], ◌∷◌, some, leb,
  ◌||◌, arith, Bool-cases,
}
use security_go.Shared.Int.{ℤ, pos, sub_ℕ, lt_ℤ}
use security_go.Shared.Time.{Instant, max_duration, second}
use security_go.Storage.Memory.{Memory, reap_once, memory_backend, new_memory}
use security_go.Session.Signer.{
  Packages, Signer, max_skew, internal_seconds, saturate, skew, is_stale, verify,
}
use security_go.Session.Signer.Nonces.{
  Used, Used-incr, Used-reap, use_nonce-incr, IsCounting, incr-IsCounting, reap_once-IsCounting,
  Used-use_nonce, Used-mono, new_memory-IsCounting, Used-replay,
}
use security_go.Session.Signer.Cases.{verify-clean, verify_stays}

-- What happens to the backend: a signature is verified, or its reaper ticks.
pub data Step : Type 0 where
  verifies : List (String × String) → String → Step
  reaps : Step

-- A saturated difference within `w` is a difference within `w`.
within :
    (x y w : ℕ)
    → w < max_duration
    → (lt_ℤ (pos w) (saturate (sub_ℕ x y)) || lt_ℤ (saturate (sub_ℕ x y)) (sub_ℕ 0 w)) ≡ false
    → (x ≤ y + w) × (y ≤ x + w)
unfolding saturate
within x y w small h = elim (Bool-cases (leb y x)) [
  | inl after ↦ let h' = rw after at h in (ground arith, ground arith)
  | inr sooner ↦ let h' = rw sooner at h in (ground arith, ground arith)
]

secs_injective : {x y : ℤ} → some x ≡ some y → x ≡ y
secs_injective e = cc

first_part : {a b c a' b' c' : String} → (a ∷ b ∷ c ∷ []) ≡ (a' ∷ b' ∷ c' ∷ []) → a ≡ a'
first_part e = cc

second_part : {a b c a' b' c' : String} → (a ∷ b ∷ c ∷ []) ≡ (a' ∷ b' ∷ c' ∷ []) → b ≡ b'
second_part e = cc

-- The clock does not go back: from `now` over the steps to `later`.
abbrev pub IsTimed : Instant → List (Instant × Step) → Instant → Type 0
IsTimed now [] later = now ≤ later
IsTimed now ((t, step) ∷ steps) later = (now ≤ t) × IsTimed t steps later

module _ (p : Packages) (s : Signer) where
  -- A signature is fresh at two moments only if these are no further apart than twice the skew.
  fresh_twice :
      (now later : Instant) (secs : ℤ)
      → 2 * max_skew s ≤ max_duration
      → is_stale p s now secs ≡ false
      → is_stale p s later secs ≡ false
      → later ≤ now + 2 * max_skew s
  unfolding is_stale skew
  fresh_twice now later secs small h k =
      let t = internal_seconds secs in
      let w = max_skew s in
      omega (
        arith,
        (within (now + t.1 * second) (t.0 * second) w (omega arith) h).1,
        (within (later + t.1 * second) (t.0 * second) w (omega arith) k).0,
      )

  verify-IsCounting :
      (now : Instant) (params : List (String × String)) (sig : String) (m : Memory)
      → IsCounting m
      → IsCounting (verify p s (some memory_backend) now params sig m).1
  verify-IsCounting now params sig m v =
      elim (verify_stays p s (some memory_backend) now params sig m) [
        | inl same ↦ rw same v
        | inr (nonce, q) ↦
            rw (q, use_nonce-incr p s now nonce m) (incr-IsCounting p s now ("sig:" ++ nonce) m v)
      ]

  -- A verification, whatever it answers, keeps a nonce that is used.
  Used-verify :
      (key : String) (t now : Instant) (params : List (String × String)) (sig : String) (m : Memory)
      → t ≤ now
      → Used p s key t now m
      → Used p s key t now (verify p s (some memory_backend) now params sig m).1
  Used-verify key t now params sig m h u =
      elim (verify_stays p s (some memory_backend) now params sig m) [
        | inl same ↦ rw same u
        | inr (nonce, q) ↦
            rw (q, use_nonce-incr p s now nonce m) (Used-incr p s key ("sig:" ++ nonce) t now m h u)
      ]

  -- The backend after a history.
  unfoldable pub after : Memory → List (Instant × Step) → Memory
  after m [] = m
  after m ((now, verifies params sig) ∷ steps) =
      after (verify p s (some memory_backend) now params sig m).1 steps
  after m ((now, reaps) ∷ steps) = after (reap_once m now) steps

  Used-after :
      (key : String) (t now later : Instant) (steps : List (Instant × Step)) (m : Memory)
      → t ≤ now
      → IsCounting m
      → IsTimed now steps later
      → Used p s key t now m
      → Used p s key t later (after m steps)
  unfolding after
  Used-after key t now later [] m h v timed u = Used-mono p s key t now later m timed u
  Used-after key t now later ((at, verifies params sig) ∷ steps) m h v (first, timed) u =
      Used-after key t at later steps (verify p s (some memory_backend) at params sig m).1
        (omega arith) (verify-IsCounting at params sig m v) timed
        (Used-verify key t at params sig m (omega arith) (Used-mono p s key t now at m first u))
  Used-after key t now later ((at, reaps) ∷ steps) m h v (first, timed) u =
      Used-after key t at later steps (reap_once m at) (omega arith) (reap_once-IsCounting at m v)
        timed (Used-reap p s key t at m v.once (Used-mono p s key t now at m first u))

  after-IsCounting :
      (steps : List (Instant × Step)) (m : Memory) → IsCounting m → IsCounting (after m steps)
  unfolding after
  after-IsCounting [] m v = v
  after-IsCounting ((at, verifies params sig) ∷ steps) m v =
      after-IsCounting steps (verify p s (some memory_backend) at params sig m).1
        (verify-IsCounting at params sig m v)
  after-IsCounting ((at, reaps) ∷ steps) m v =
      after-IsCounting steps (reap_once m at) (reap_once-IsCounting at m v)

  -- A signature is accepted at most once: after any verifications and reaper ticks on a new in-memory
  -- backend, once `Verify` accepted a signature, it reports the same signature, for whatever
  -- parameters, at every later moment, whatever signatures are verified and wherever the reaper ticks
  -- in between. The clock does not go back from the acceptance on, and twice the allowed skew must be
  -- a duration.
  pub verify_once :
      (params params' : List (String × String)) (sig : String) (earlier : List (Instant × Step))
      (now later : Instant) (steps : List (Instant × Step))
      → 2 * max_skew s ≤ max_duration
      → IsTimed now steps later
      → let first = verify p s (some memory_backend) now params sig (after new_memory earlier) in
        first.0.detected ≡ false
        → (verify p s (some memory_backend) later params' sig (after first.1 steps)).0.detected
          ≡ true
  verify_once params params' sig earlier now later steps small timed accepted =
      let m = after new_memory earlier in
      let v = after-IsCounting earlier new_memory new_memory-IsCounting in
      let a = verify-clean p s (some memory_backend) now params sig m accepted in
      let used = Used-use_nonce p s now a.nonce m v (rw a.checked at accepted) in
      let first = (verify p s (some memory_backend) now params sig m).1 in
      let used' =
        Used-after ("sig:" ++ a.nonce) now now later steps first (omega arith)
          (verify-IsCounting now params sig m v) timed (rw a.checked used) in
      elim (Bool-cases
        (verify p s (some memory_backend) later params' sig (after first steps)).0.detected) [
          | inl reported ↦ reported
          | inr again ↦
              let b =
                verify-clean p s (some memory_backend) later params' sig (after first steps)
                  again in
              let parts = sym a.parts ∙ b.parts in
              let same_secs =
                secs_injective (sym a.time ∙ ap p.parse_int (first_part parts) ∙ b.time) in
              let early = fresh_twice now later a.secs small a.fresh (rw same_secs b.fresh) in
              ap (λ r. r.0.detected) b.checked
              ∙ rw (← second_part parts)
                  (Used-replay p s a.nonce now later (after first steps) early used')
        ]
