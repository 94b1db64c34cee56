-- ===== src/Session/Outage/Tests.antt =====
-- session/: a store that cannot be reached, under a tracker that fails closed.
use security_go.Shared.{ℕ, ◌≡◌, refl, true, false, [], ◌∷◌, none, some, err}
use security_go.Session.{Store}
use security_go.Session.Examples.{by_default, client}
use security_go.Session.Codec.{packages}
use security_go.Session.Tracker.{Tracker}
use security_go.Session.Tracker.Checks.{token_of, check, observe}
use security_go.Session.Lockout.{is_locked}
use security_go.Session.BruteForce.{check_login, record_failure, guard_login, too_many, header}
use security_go.Session.Outage.{fail_closed-IsDown}

-- Nothing changes its state.
abbrev unreachable : Store ℕ
unreachable = record {
  save = λ s now key value ttl. (err "down", s);
  load = λ s now key. err "down";
  delete = λ s key. (err "down", s);
}

abbrev closed : Tracker
closed = record by_default { token_source = some (λ r. "token"); fail_closed = true }

fail_closed-IsDown_example :
    ((check_login packages unreachable closed 10 "bob" client 7).detected ≡ true)
    × ((check packages unreachable closed 10 client 7).0.detected ≡ true)
    × ((check packages unreachable closed 10 client 7).1 ≡ 7)
    × ((observe packages unreachable closed 10 "bob" client 7).0.detected ≡ true)
    × ((observe packages unreachable closed 10 "bob" client 7).1 ≡ 7)
    × ((guard_login packages unreachable closed 10
          (λ s. (header 401 ∷ [], s))
          (some (λ r. "bob"))
          client
          7).0
        ≡ too_many none)
    × (is_locked packages unreachable 10 "bob" 7 ≡ none)
    × (record_failure packages unreachable closed 10 "bob" client 7 ≡ (err "down", 7))
    × ((check_login packages unreachable closed 10 "" client 7).detected ≡ false)
unfolding token_of
fail_closed-IsDown_example =
    fail_closed-IsDown packages unreachable closed 10 7 "down" (λ key. refl) "bob" (λ r. "bob")
      client (λ s. (header 401 ∷ [], s)) refl refl refl
