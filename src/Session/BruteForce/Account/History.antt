-- ===== src/Session/BruteForce/Account/History.antt =====
-- session/bruteforce.go and session/lockout.go: any history of an identity, and its account.
use text.Mathlib.Text.{◌==◌ as str_eq}
use security_go.Shared.{
  ◌≡◌, refl, subst, sym, false, String, List, [], ◌∷◌, Option, Fallible, ok, All,
}
use security_go.Shared.Time.{Instant}
use security_go.Session.{Store, IsStore, Request, Packages, Laws}
use security_go.Session.Tracker.{Tracker, failure_key}
use security_go.Session.Lockout.{locked, clear_failures}
use security_go.Session.BruteForce.{record_failure}
use security_go.Session.BruteForce.Account.{
  Account, live, live_lock, Event, fails, clears, account_after, fail, clear,
}
use security_go.Session.BruteForce.Account.Refinement.{
  shown, Shows, fail-Shows, clear_failures-eq, cleared-Shows,
}

module _ {S : Type 0} (p : Packages) (store : Store S) (t : Tracker) (identity : String)
    (r : Option Request) where
  -- An event of the history is a call of the tracker.
  abbrev happens : Event → S → Fallible (Unit {0}) × S
  happens (fails now) s = record_failure p store t now identity r s
  happens clears s = clear_failures p store identity s

  unfoldable pub after : List Event → S → S
  after [] s = s
  after (e ∷ es) s = after es (happens e s).1

  unfoldable pub answers : List Event → S → List (Fallible (Unit {0}))
  answers [] s = []
  answers (e ∷ es) s = let r = happens e s in r.0 ∷ answers es r.1

module _ {S : Type 0} (p : Packages) (laws : Laws p) (store : Store S) (is : IsStore store)
    (t : Tracker) (identity : String) (r : Option Request)
    (named : str_eq identity "" ≡ false) where
  abbrev IsShown : S → Account → Type 0
  IsShown s a = Shows p laws store is t identity r s a

  clears-IsShown :
      (s : S) (a : Account)
      → IsShown s a
      → ((clear_failures p store identity s).0 ≡ ok tt)
        × IsShown (clear_failures p store identity s).1 (clear t a)
  clears-IsShown s a h =
      subst (λ x. (x.0 ≡ ok tt) × IsShown x.1 (clear t a))
        (sym (clear_failures-eq p laws store is t identity r s named))
        (refl, cleared-Shows p laws store is t identity r s a h)

  after-IsShown :
      (es : List Event) (s : S) (a : Account)
      → IsShown s a
      → All (λ x. x ≡ ok tt) (answers p store t identity r es s)
        × IsShown (after p store t identity r es s) (account_after t es a)
  unfolding after answers account_after
  after-IsShown [] s a h = (tt, h)
  after-IsShown (fails now ∷ es) s a h =
      let (done, h') = fail-Shows p laws store is t identity r s now a named h in
      let (all_done, h'') =
        after-IsShown es (record_failure p store t now identity r s).1 (fail t now a) h' in
      ((done, all_done), h'')
  after-IsShown (clears ∷ es) s a h =
      let (done, h') = clears-IsShown s a h in
      let (all_done, h'') = after-IsShown es (clear_failures p store identity s).1 (clear t a) h' in
      ((done, all_done), h'')

  -- Whatever failures from a client and successes a named identity has, at whatever times, over a store
  -- that does not fail and that shows its account at the beginning: every call of `RecordFailure` and of
  -- `ClearFailures` succeeds, and what the store then says of the lockout and of the counter, at any
  -- time, is what the account says.
  pub locked-account_after :
      (es : List Event) (s : S) (a : Account) (later : Instant)
      → Shows p laws store is t identity r s a
      → let s' = after p store t identity r es s in
        let a' = account_after t es a in
        All (λ x. x ≡ ok tt) (answers p store t identity r es s)
        × (locked p store later identity s' ≡ ok (live_lock later a'.lock))
        × (store.load s' later (failure_key p identity)
            ≡ ok (shown p laws store is t identity r (live later a'.failed)))
  locked-account_after es s a later h =
      let (all_done, h') = after-IsShown es s a h in (all_done, h'.lock later, h'.failed later)
