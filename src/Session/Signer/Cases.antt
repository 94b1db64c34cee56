-- ===== src/Session/Signer/Cases.antt =====
-- session/tamper.go: what a signature that `Verify` accepts is like.
use text.Mathlib.Text.{◌==◌}
use security_go.Shared.{
  true_not_false, ◌≡◌, ◌⊎◌, refl, ap, false, String, List, [], ◌∷◌, Option, some, eq_iff, eq_refl,
  Bool-cases, Option-cases, inl, inr,
}
use security_go.Shared.Int.{ℤ}
use security_go.Shared.Text.{split}
use security_go.Shared.Time.{Instant}
use security_go.Security.{Result}
use security_go.Storage.{Backend}
use security_go.Session.Signer.{
  Packages, Signer, dot, mac, is_stale, stale, use_nonce, verify_at, verify_parts, verify,
}

module _ (p : Packages) (s : Signer) {S : Type 0} (nonces : Option (Backend S))
    (now : Instant) where
  -- The signature has a time that is fresh and the code of the parameters, and went on to the replay
  -- check.
  pub record Accepted (params : List (String × String)) (sig : String) (st : S) : Type 0 where
    pub ts : String
    pub nonce : String
    pub secs : ℤ
    pub parts : split dot sig ≡ ts ∷ nonce ∷ mac p s params ts nonce ∷ []
    pub time : p.parse_int ts ≡ some secs
    pub fresh : is_stale p s now secs ≡ false
    pub checked : verify p s nonces now params sig st ≡ use_nonce p s nonces now nonce st

  -- What a run of the checks of three parts comes to.
  Checked : List (String × String) → List String → S → Type 0
  Checked params parts st =
      (ts nonce : String) × (secs : ℤ) × (parts ≡ ts ∷ nonce ∷ mac p s params ts nonce ∷ [])
      × (p.parse_int ts ≡ some secs)
      × (is_stale p s now secs ≡ false)
      × (verify_parts p s nonces now params parts st ≡ use_nonce p s nonces now nonce st)

  verify_at-clean :
      (params : List (String × String)) (secs : ℤ) (ts nonce sent : String) (st : S)
      → (verify_at p s nonces now params secs ts nonce sent st).0.detected ≡ false
      → (is_stale p s now secs ≡ false)
        × (sent ≡ mac p s params ts nonce)
        × (verify_at p s nonces now params secs ts nonce sent st
            ≡ use_nonce p s nonces now nonce st)
  unfolding verify_at stale
  verify_at-clean params secs ts nonce sent st h = elim (Bool-cases (is_stale p s now secs)) [
    | inl old ↦ absurd (true_not_false refl (rw (old, verify_at) at h))
    | inr fresh ↦ elim (Bool-cases (sent == mac p s params ts nonce)) [
      | inr forged ↦ absurd (true_not_false refl (rw (fresh, forged, verify_at) at h))
      | inl same ↦ (fresh, (eq_iff _ _).0 same, rw (fresh, same, verify_at) refl)
    ]
  ]

  verify_parts-clean :
      (params : List (String × String)) (parts : List String) (st : S)
      → (verify_parts p s nonces now params parts st).0.detected ≡ false
      → Checked params parts st
  unfolding verify_parts Checked
  verify_parts-clean params [] st h = absurd (true_not_false refl h)
  verify_parts-clean params (a ∷ []) st h = absurd (true_not_false refl h)
  verify_parts-clean params (a ∷ b ∷ []) st h = absurd (true_not_false refl h)
  verify_parts-clean params (a ∷ b ∷ c ∷ d ∷ ds) st h = absurd (true_not_false refl h)
  verify_parts-clean params (ts ∷ nonce ∷ sent ∷ []) st h = elim (Option-cases (p.parse_int ts)) [
    | inl bad ↦ absurd (true_not_false refl (rw (bad, verify_parts) at h))
    | inr (secs, time) ↦
        let (fresh, same, on) =
          verify_at-clean params secs ts nonce sent st (rw (time, verify_parts) at h) in
        (
          ts,
          nonce,
          secs,
          ap (λ x. ts ∷ nonce ∷ x ∷ []) same,
          time,
          fresh,
          rw (time, verify_parts) on,
        )
  ]

  pub verify-clean :
      (params : List (String × String)) (sig : String) (st : S)
      → (verify p s nonces now params sig st).0.detected ≡ false
      → Accepted params sig st
  unfolding verify Checked
  verify-clean params sig st h = elim (Bool-cases (s.secret == "")) [
    | inl none_set ↦ absurd (true_not_false refl (rw (none_set, verify) at h))
    | inr named ↦
        let (ts, nonce, secs, parts, time, fresh, on) =
          verify_parts-clean params (split dot sig) st (rw (named, verify) at h) in
        record {
          ts = ts;
          nonce = nonce;
          secs = secs;
          parts = parts;
          time = time;
          fresh = fresh;
          checked = rw (named, verify) on;
        }
  ]

  -- Such a signature goes on to the replay check.
  pub verify-parts :
      (params : List (String × String)) (sig ts nonce : String) (secs : ℤ) (st : S)
      → (s.secret == "") ≡ false
      → split dot sig ≡ ts ∷ nonce ∷ mac p s params ts nonce ∷ []
      → p.parse_int ts ≡ some secs
      → is_stale p s now secs ≡ false
      → verify p s nonces now params sig st ≡ use_nonce p s nonces now nonce st
  unfolding verify verify_parts verify_at
  verify-parts params sig ts nonce secs st named parts time fresh =
      rw (named, parts, verify_parts, time, fresh, eq_refl (mac p s params ts nonce)) refl

  -- A run that ends before the replay check leaves the backend as it is.
  Stays : S → Result × S → Type 0
  Stays st r = (r.1 ≡ st) ⊎ ((nonce : String) × (r ≡ use_nonce p s nonces now nonce st))

  verify_at-Stays :
      (params : List (String × String)) (secs : ℤ) (ts nonce sent : String) (st : S)
      → Stays st (verify_at p s nonces now params secs ts nonce sent st)
  unfolding verify_at Stays
  verify_at-Stays params secs ts nonce sent st = elim (Bool-cases (is_stale p s now secs)) [
    | inl old ↦ rw (old, verify_at) (inl refl)
    | inr fresh ↦ elim (Bool-cases (sent == mac p s params ts nonce)) [
      | inr forged ↦ rw (fresh, forged, verify_at) (inl refl)
      | inl same ↦ rw (fresh, same, verify_at) (inr (nonce, refl))
    ]
  ]

  verify_parts-Stays :
      (params : List (String × String)) (parts : List String) (st : S)
      → Stays st (verify_parts p s nonces now params parts st)
  unfolding verify_parts Stays
  verify_parts-Stays params [] st = inl refl
  verify_parts-Stays params (a ∷ []) st = inl refl
  verify_parts-Stays params (a ∷ b ∷ []) st = inl refl
  verify_parts-Stays params (a ∷ b ∷ c ∷ d ∷ ds) st = inl refl
  verify_parts-Stays params (ts ∷ nonce ∷ sent ∷ []) st = elim (Option-cases (p.parse_int ts)) [
    | inl bad ↦ rw (bad, verify_parts) (inl refl)
    | inr (secs, time) ↦ rw (time, verify_parts) (verify_at-Stays params secs ts nonce sent st)
  ]

  pub verify_stays :
      (params : List (String × String)) (sig : String) (st : S)
      → ((verify p s nonces now params sig st).1 ≡ st)
        ⊎ ((nonce : String) × (verify p s nonces now params sig st
              ≡ use_nonce p s nonces now nonce st))
  unfolding verify Stays
  verify_stays params sig st = elim (Bool-cases (s.secret == "")) [
    | inl none_set ↦ rw (none_set, verify) (inl refl)
    | inr named ↦ rw (named, verify) (verify_parts-Stays params (split dot sig) st)
  ]
