-- ===== src/Session/Tracker/Checks/Binding.antt =====
-- session/tracker.go: from which clients a session is accepted.
use Prim.Native.String.{◌++◌}
use text.Mathlib.Text.{◌==◌}
use security_go.Shared.{
  true_not_false, ◌+◌, ◌≤◌, ◌≡◌, ◌↔◌, ◌⊎◌, inl, inr, refl, ◌∙◌, true, false, not, ◌&&◌, String,
  Option, none, some, ok, ltb, arith, eq_iff, eq_refl, Bool-cases,
}
use security_go.Shared.Keys.{clash-eq}
use security_go.Shared.Time.{Instant}
use security_go.Security.{Result, high, critical}
use security_go.Session.{Store, IsStore, Session, Request, Packages, Laws, deny}
use security_go.Session.Tracker.{
  Tracker, tracker_name, ttl, subnet_bits, hash_token, session_key, lock_key, client_ip, network,
  user_agent, fingerprint,
}
use security_go.Session.Lockout.{locked}
use security_go.Session.Tracker.Checks.{
  country_at, new_session, changed_agent, changed_fingerprint, changed_country, changed_network,
  mismatch, load_session, save_session, issue, after_save, verify, check_found, token_of,
  check_token, check,
}

module _ (p : Packages) (t : Tracker) where
  -- Where a client is, if there is a function for countries.
  abbrev pub country_of_client : Option Request → String
  country_of_client r = elim t.country_of [
    | none ↦ ""
    | some country_of ↦ country_of (client_ip p t r)
  ]

  -- Two requests come from one client, as far as they say: the second has the first one's user agent,
  -- if that had one, both have the same fingerprint and the same country, where both have one, and their
  -- addresses are in one network.
  abbrev pub IsSame : Option Request → Option Request → Type 0
  IsSame r0 r =
      ((user_agent r0 ≡ "") ⊎ (user_agent r ≡ user_agent r0))
      × ((fingerprint r0 ≡ "") ⊎ (fingerprint r ≡ "") ⊎ (fingerprint r ≡ fingerprint r0))
      × ((country_of_client r0 ≡ "")
          ⊎ (country_of_client r ≡ "")
          ⊎ (country_of_client r ≡ country_of_client r0))
      × (network p (client_ip p t r) (subnet_bits t) ≡ network p (client_ip p t r0) (subnet_bits t))

  -- The same with what a session holds in place of the first request.
  abbrev IsBound : Session → Option Request → Type 0
  IsBound x r =
      ((x.user_agent ≡ "") ⊎ (user_agent r ≡ x.user_agent))
      × ((x.fingerprint ≡ "") ⊎ (fingerprint r ≡ "") ⊎ (fingerprint r ≡ x.fingerprint))
      × ((x.country ≡ "")
          ⊎ (country_at p t (client_ip p t r) ≡ "")
          ⊎ (country_at p t (client_ip p t r) ≡ x.country))
      × (network p (client_ip p t r) (subnet_bits t) ≡ network p x.ip (subnet_bits t))

  two_tests : (a b : String) → ((not (a == "") && not (b == a)) ≡ false) ↔ ((a ≡ "") ⊎ (b ≡ a))
  two_tests a b =
      (λ e. ground (arith, eq_iff a "", eq_iff b a), λ e. ground (arith, eq_iff a "", eq_iff b a))

  three_tests :
      (a b : String)
      → ((not (a == "") && (not (b == "") && not (b == a))) ≡ false)
        ↔ ((a ≡ "") ⊎ (b ≡ "") ⊎ (b ≡ a))
  three_tests a b = (
    λ e. ground (arith, eq_iff a "", eq_iff b "", eq_iff b a),
    λ e. ground (arith, eq_iff a "", eq_iff b "", eq_iff b a),
  )

  one_test : (a b : String) → (not (a == b) ≡ false) ↔ (a ≡ b)
  one_test a b = (λ e. ground (arith, eq_iff a b), λ e. ground (arith, eq_iff a b))

  -- What the early returns come to: no detection, or one.
  Tested : Session → Option Request → Type 0
  Tested x r =
      ((mismatch p t x r ≡ none) × IsBound x r)
      ⊎ ((d : Result) × (mismatch p t x r ≡ some d) × (d.detected ≡ true) × ¬ IsBound x r)

  mismatch-cases : (x : Session) (r : Option Request) → Tested x r
  unfolding mismatch Tested changed_agent changed_fingerprint changed_country changed_network
  mismatch-cases x r =
      let agent = two_tests x.user_agent (user_agent r) in
      let print = three_tests x.fingerprint (fingerprint r) in
      let country = three_tests x.country (country_at p t (client_ip p t r)) in
      let net =
        one_test (network p (client_ip p t r) (subnet_bits t)) (network p x.ip (subnet_bits t)) in
      elim (Bool-cases (changed_agent p t x r)) [
        | inl e ↦ inr (
          deny tracker_name "client_hijack" "user agent changed for this session" critical,
          rw (e, mismatch) refl,
          refl,
          λ h. true_not_false e (agent.1 h.0),
        )
        | inr e1 ↦ elim (Bool-cases (changed_fingerprint p t x r)) [
          | inl e ↦ inr (
            deny tracker_name "client_hijack" "device fingerprint changed for this session"
                critical,
            rw (e1, e, mismatch) refl,
            refl,
            λ h. true_not_false e (print.1 h.1),
          )
          | inr e2 ↦ elim (Bool-cases (changed_country p t x r)) [
            | inl e ↦ inr (
              deny tracker_name "remote_login"
                  ("country changed for this session: "
                    ++ (x.country ++ (" -> " ++ country_at p t (client_ip p t r))))
                  critical,
              rw (e1, e2, e, mismatch) refl,
              refl,
              λ h. true_not_false e (country.1 h.2),
            )
            | inr e3 ↦ elim (Bool-cases (changed_network p t x r)) [
              | inl e ↦ inr (
                deny tracker_name "remote_login"
                    ("network changed for this session: " ++ (x.ip ++ (" -> " ++ client_ip p t r)))
                    high,
                rw (e1, e2, e3, e, mismatch) refl,
                refl,
                λ h. true_not_false e (net.1 h.3),
              )
              | inr e4 ↦ inl (
                rw (e1, e2, e3, e4, mismatch) refl,
                (agent.0 e1, print.0 e2, country.0 e3, net.0 e4),
              )
            ]
          ]
        ]
      ]

module _ {S : Type 0} (p : Packages) (laws : Laws p) (store : Store S) (is : IsStore store)
    (t : Tracker) where
  stored_at : S → Instant → String → String → S
  stored_at s now token value = (store.save s now (session_key p token) value (ttl t)).1

  save_session_lem :
      (s : S) (now : Instant) (token : String) (x : Session)
      → (value : String) × (save_session p store t now token x s
          ≡ (ok tt, stored_at s now token value))
        × ((p.valid x.ip && p.valid x.user_agent && p.valid x.fingerprint && p.valid x.country)
              ≡ true
            → p.unmarshal_session value ≡ some x)
  unfolding save_session stored_at
  save_session_lem s now token x =
      let (value, written, back) = laws.unmarshal_session-marshal_session x in
      (
        value,
        rw (written, save_session)
            (λ i.
              (is.saves s now (session_key p token) value (ttl t) i, stored_at s now token value)),
        back,
      )

  -- A session is accepted exactly from a client that is the same; a detection leaves the store alone.
  verify_iff :
      (r : Option Request) (s : S) (now : Instant) (token : String) (x : Session)
      → ((verify p store t now r token x s).0.detected ≡ false) ↔ IsBound p t x r
  unfolding verify after_save Tested
  verify_iff r s now token x = elim (mismatch-cases p t x r) [
    | inl (e, same) ↦
        let (value, saved, back) = save_session_lem s now token (record x { last_seen = now }) in
        rw (e, verify, saved) (λ h. same, λ h. refl)
    | inr (d, e, found, other) ↦
        rw (e, verify) (λ h. absurd (true_not_false found h), λ h. absurd (other h))
  ]

  stored_session :
      (s : S) (now later : Instant) (token value : String) (x : Session)
      → p.unmarshal_session value ≡ some x
      → later ≤ now + ttl t
      → load_session p store t later token (stored_at s now token value) ≡ ok (some x)
  unfolding load_session stored_at
  stored_session s now later token value x back early =
      let key = session_key p token in
      let live : ltb (now + ttl t) later ≡ false = ground arith in
      rw (is.load-save s now later key key value (ttl t), eq_refl key, live, load_session, back)
        refl

  stored_locked :
      (s : S) (now later : Instant) (token value : String)
      → locked p store later token (stored_at s now token value) ≡ locked p store later token s
  unfolding locked stored_at
  stored_locked s now later token value =
      let h = hash_token p token in
      rw
        (
          is.load-save s now later (session_key p token) (lock_key p token) value (ttl t),
          clash-eq "sess:" "lock:" h h refl,
          locked,
        )
        refl

  check_token-verify :
      (r : Option Request) (s : S) (now : Instant) (token : String) (x : Session)
      → load_session p store t now token s ≡ ok (some x)
      → locked p store now token s ≡ ok none
      → check_token p store t now r token s ≡ verify p store t now r token x s
  unfolding check_token check_found
  check_token-verify r s now token x found unlocked = rw (found, check_token, unlocked) refl

  -- A session that `Issue` binds to a client is accepted by `Check`, until its time to live is over
  -- and while its token is not locked, exactly from a client that is the same as the one that it was issued
  -- to: with the same user agent, if that had one, with the same fingerprint and the same country, where
  -- both clients have one, and in the same network. What is remembered of that client must be UTF-8, as
  -- JSON demands. Where a country comes from is a setting.
  pub check-issue_iff :
      (s : S) (now later : Instant) (token : String) (r0 r : Option Request)
      → (token == "") ≡ false
      → token_of p store t later r ≡ token
      → later ≤ now + ttl t
      → locked p store later token s ≡ ok none
      → (p.valid (client_ip p t r0)
          && p.valid (user_agent r0)
          && p.valid (fingerprint r0)
          && p.valid (country_of_client p t r0))
        ≡ true
      → (s' : S) × (issue p store t now token r0 s ≡ (ok tt, s'))
        × (((check p store t later r s').0.detected ≡ false) ↔ IsSame p t r0 r)
  unfolding issue check new_session country_at
  check-issue_iff s now later token r0 r named carried early unlocked is_text =
      let x = new_session p t now r0 in
      let (value, saved, back) = save_session_lem s now token x in
      let s' = stored_at s now token value in
      (
        s',
        rw (named, issue) saved,
        rw
            (
              carried,
              named,
              check_token-verify r s' later token x
                  (stored_session s now later token value x (back is_text) early)
                  (stored_locked s now later token value ∙ unlocked),
            )
            (verify_iff r s' later token x),
      )
