-- ===== src/Session/BruteForce/Racing.antt =====
-- session/bruteforce.go: attempts that run at the same time.
--
-- The store is locked during one call of it, not during `RecordFailure`, which makes several. An attempt
-- is the calls that it makes, each with what follows its answer; between two calls of one attempt those of
-- others may come.
pub mod Atomic
pub mod Orders
pub mod Lost
mod Tests
use text.Mathlib.Text.{◌==◌ as str_eq}
use security_go.Shared.{
  ℕ, zero, suc, ◌+◌, Bool, true, false, not, ◌&&◌, String, List, [], ◌∷◌, Option, none, some,
  Fallible, ok, err, leb, if◌then◌else◌,
}
use security_go.Shared.Time.{Instant, Duration}
use security_go.Session.{Store, Request, Packages}
use security_go.Session.Tracker.{
  Tracker, hash_token, lock_key, failure_key, strike_key, stuffing_key, client_ip,
}
use security_go.Session.Lockout.{failures, failure_window, backoff_window, lock_for, lock_end}
use security_go.Session.BruteForce.{contains, add_id, is_some, counter_of}

-- What is left of an attempt: its answer, or a call of the store and what follows the answer to it.
pub data Attempt (A : Type 0) : Type 0 where
  ends : Fallible A → Attempt A
  loads : String → (Fallible (Option String) → Attempt A) → Attempt A
  saves : String → String → Duration → (Fallible (Unit {0}) → Attempt A) → Attempt A

-- What follows an attempt, unless that failed.
unfoldable pub then_do : {A B : Type 0} → Attempt A → (A → Attempt B) → Attempt B
then_do (ends (ok a)) f = f a
then_do (ends (err e)) f = ends (err e)
then_do (loads key next) f = loads key (λ x. then_do (next x) f)
then_do (saves key value ttl next) f = saves key value ttl (λ x. then_do (next x) f)

abbrev pub load_call : String → Attempt (Option String)
load_call key = loads key (λ x. ends x)

abbrev pub save_call : String → String → Duration → Attempt (Unit {0})
save_call key value ttl = saves key value ttl (λ x. ends x)

abbrev pub when_call : Bool → Attempt (Unit {0}) → Attempt (Unit {0})
when_call true m = m
when_call false m = ends (ok tt)

module _ {S : Type 0} (p : Packages) (store : Store S) (t : Tracker) (now : Instant) where
  -- The functions of session/bruteforce.go, call by call.
  unfoldable pub bump_calls : String → Duration → Attempt ℕ
  unfolding then_do counter_of
  bump_calls key ttl = then_do (load_call key) (λ value.
      let n = counter_of p store t now value + 1 in
      then_do (save_call key (p.itoa n) ttl) (λ _. ends (ok n)))

  unfoldable pub locked_calls : String → Attempt (Option Instant)
  unfolding then_do lock_end
  locked_calls identity =
      then_do (load_call (lock_key p identity)) (λ value. ends (ok (lock_end p store now value)))

  unfoldable pub lock_out_calls : String → Attempt (Unit {0})
  unfolding bump_calls then_do lock_for
  lock_out_calls identity =
      then_do (bump_calls (strike_key p identity) (backoff_window t)) (λ strikes.
        let d = lock_for t strikes in save_call (lock_key p identity) (p.format_time (now + d)) d)

  unfoldable pub ids_of : Option String → Fallible (List String)
  ids_of none = ok []
  ids_of (some value) = elim (p.unmarshal_texts value) [ none ↦ err "json" | some ids ↦ ok ids ]

  unfoldable pub save_ids_calls : String → List String → Attempt (Unit {0})
  save_ids_calls key ids = elim (p.marshal_texts ids) [
    | none ↦ ends (err "json")
    | some value ↦ save_call key value (failure_window t)
  ]

  unfoldable pub remember_id_calls : String → String → List String → Attempt (Unit {0})
  unfolding contains add_id save_ids_calls
  remember_id_calls key h ids =
      if contains h ids then ends (ok tt) else save_ids_calls key (add_id p store t now h ids)

  unfoldable pub record_stuffing_calls : String → String → Attempt (Unit {0})
  unfolding ids_of remember_id_calls then_do
  record_stuffing_calls identity ip =
      if str_eq ip ""
      then ends (ok tt)
      else then_do (then_do (load_call (stuffing_key p ip)) (λ value. ends (ids_of value)))
          (remember_id_calls (stuffing_key p ip) (hash_token p identity))

  unfoldable pub count_failure_calls :
      String → Option Request → ℕ → Option Instant → Attempt (Unit {0})
  unfolding lock_out_calls record_stuffing_calls then_do client_ip
  count_failure_calls identity r n until =
      then_do (when_call (leb (failures t) n && not (is_some until)) (lock_out_calls identity))
        (λ _.
          then_do (record_stuffing_calls identity (client_ip p t r))
            (λ _. save_call (failure_key p identity) (p.itoa n) (failure_window t)))

  unfoldable pub record_failure_calls : String → Option Request → Attempt (Unit {0})
  unfolding then_do counter_of locked_calls count_failure_calls
  record_failure_calls identity r =
      if str_eq identity ""
      then ends (err "session: empty identity")
      else then_do (load_call (failure_key p identity)) (λ value.
        then_do (locked_calls identity)
          (λ until. count_failure_calls identity r (counter_of p store t now value + 1) until))

module _ {S : Type 0} (store : Store S) (now : Instant) where
  -- The attempt alone, from beginning to end.
  unfoldable pub finish : {A : Type 0} → Attempt A → S → Fallible A × S
  finish (ends x) s = (x, s)
  finish (loads key next) s = finish (next (store.load s now key)) s
  finish (saves key value ttl next) s =
      let r = store.save s now key value ttl in finish (next r.0) r.1

  -- The next call of an attempt.
  unfoldable pub advance : {A : Type 0} → Attempt A → S → Attempt A × S
  advance (ends x) s = (ends x, s)
  advance (loads key next) s = (next (store.load s now key), s)
  advance (saves key value ttl next) s = let r = store.save s now key value ttl in (next r.0, r.1)

  -- Attempts at the same time: one of them makes its next call.
  pub data Turn {A : Type 0} : List (Attempt A) → S → List (Attempt A) → S → Type 0 where
    first :
        (a : Attempt A) (qs : List (Attempt A)) (s : S)
        → Turn (a ∷ qs) s ((advance a s).0 ∷ qs) (advance a s).1
    other :
        (a : Attempt A) {qs qs' : List (Attempt A)} {s s' : S}
        → Turn qs s qs' s'
        → Turn (a ∷ qs) s (a ∷ qs') s'

  pub data Turns {A : Type 0} (qs : List (Attempt A)) (s : S) : List (Attempt A) → S → Type 0 where
    stay : Turns qs s qs s
    then :
        {qs' qs'' : List (Attempt A)} {s' s'' : S}
        → Turns qs s qs' s'
        → Turn qs' s' qs'' s''
        → Turns qs s qs'' s''

-- As many attempts of one kind.
unfoldable pub copies : {A : Type 0} → ℕ → A → List A
copies zero a = []
copies (suc count) a = a ∷ copies count a
