-- ===== src/Session/BruteForce/Racing/Orders.antt =====
-- session/bruteforce.go: orders in which the calls of several attempts may come.
use security_go.Shared.{ℕ, zero, suc, List, ◌∷◌, Option, Fallible, String}
use security_go.Shared.Time.{Instant}
use security_go.Session.{Store}
use security_go.Session.BruteForce.Racing.{
  Attempt, ends, loads, saves, finish, advance, copies, first, other, Turns, stay, then,
}

module _ {S A : Type 0} (store : Store S) (now : Instant) where
  -- One order after another.
  pub Turns-trans :
      {qs qs' : List (Attempt A)} {s s' : S} {qs'' : List (Attempt A)} {s'' : S}
      → Turns store now qs s qs' s'
      → Turns store now qs' s' qs'' s''
      → Turns store now qs s qs'' s''
  Turns-trans before stay = before
  Turns-trans before (then after turn) = then (Turns-trans before after) turn

  -- The first attempt waits.
  pub Turns-other :
      (a : Attempt A) {qs : List (Attempt A)} {s : S} {qs' : List (Attempt A)} {s' : S}
      → Turns store now qs s qs' s'
      → Turns store now (a ∷ qs) s (a ∷ qs') s'
  Turns-other a stay = stay
  Turns-other a (then before turn) = then (Turns-other a before) (other a turn)

  -- The first attempt makes all its calls.
  pub Turns-finish :
      (a : Attempt A) (qs : List (Attempt A)) (s : S)
      → let r = finish store now a s in Turns store now (a ∷ qs) s (ends r.0 ∷ qs) r.1
  unfolding finish advance
  Turns-finish (ends x) qs s = stay
  Turns-finish (loads key next) qs s =
      Turns-trans (then stay (first (loads key next) qs s))
        (Turns-finish (next (store.load s now key)) qs s)
  Turns-finish (saves key value ttl next) qs s =
      let r = store.save s now key value ttl in
      Turns-trans (then stay (first (saves key value ttl next) qs s))
        (Turns-finish (next r.0) qs r.1)

  -- Each attempt makes its first call, where that is the same load.
  pub Turns-loads :
      (count : ℕ) (key : String) (next : Fallible (Option String) → Attempt A) (s : S)
      → Turns store now
          (copies count (loads key next))
          s
          (copies count (next (store.load s now key)))
          s
  unfolding copies advance
  Turns-loads zero key next s = stay
  Turns-loads (suc count) key next s =
      Turns-trans (then stay (first (loads key next) (copies count (loads key next)) s))
        (Turns-other (next (store.load s now key)) (Turns-loads count key next s))
