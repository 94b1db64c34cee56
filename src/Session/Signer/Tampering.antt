-- ===== src/Session/Signer/Tampering.antt =====
-- session/tamper.go: `Verify` of what `Sign` returns, and of a signature for other parameters.
use Prim.Native.String.{◌++◌}
use mathlib.Core.List.{Permᴰ}
use text.Mathlib.Text.{◌==◌}
use security_go.Shared.{
  true_not_false, ◌+◌, ◌-◌, ◌*◌, ◌/◌, ◌^◌, ◌≤◌, ◌<◌, ◌||◌, ℕ, eq_refl, ◌≡◌, ◌≢◌, refl, sym, ap, ◌∙◌,
  ◌⊎◌, inl, inr, true, false, String, List, [], ◌∷◌, Option, some, none, ok, ltb, leb, arith,
  Bool-cases, eq_iff,
}
use security_go.Shared.Int.{pos, sub_ℕ, lt_ℤ}
use security_go.Shared.Assoc.{lookup, IsMap}
use security_go.Shared.Text.{split, lacks, split-append, split-lacks, one-append}
use security_go.Shared.Time.{Instant, second}
use security_go.Security.{clean}
use security_go.Storage.{Backend}
use security_go.Storage.Memory.{Memory, memory_backend, incr, incr_event}
use security_go.Session.Signer.{
  Packages, Laws, Signer, dot, newline, max_skew, unix_epoch, unix, internal_seconds, saturate,
  skew, message, mac, sign, is_stale, use_nonce, verify, signer_name,
}
use security_go.Session.Signer.Canonical.{message-injective}
use security_go.Session.Signer.Ordering.{canonical-perm}
use security_go.Session.Signer.Cases.{verify-clean, verify-parts}

parts_injective :
    {a b c a' b' c' : String}
    → (a ∷ b ∷ c ∷ []) ≡ (a' ∷ b' ∷ c' ∷ [])
    → (a ≡ a') × (b ≡ b') × (c ≡ c')
parts_injective e = (cc, cc, cc)

module _ (p : Packages) (laws : Laws p) (s : Signer) where
  split-signature :
      (ts nonce key text : String)
      → lacks dot ts ≡ true
      → lacks dot nonce ≡ true
      → split dot (ts ++ ("." ++ (nonce ++ ("." ++ p.hmac key text))))
        ≡ ts ∷ nonce ∷ p.hmac key text ∷ []
  split-signature ts nonce key text h k =
      let code_text = p.hmac key text in
      let tail = nonce ++ ("." ++ code_text) in
      ap (λ t. split dot (ts ++ t)) (one-append "." tail)
      ∙ split-append dot "." ts tail refl h
      ∙ ap (λ parts. ts ∷ parts)
          (ap (λ t. split dot (nonce ++ t)) (one-append "." code_text)
            ∙ split-append dot "." nonce code_text refl k
            ∙ ap (λ parts. nonce ∷ parts) (split-lacks dot code_text (laws.lacks-hmac key text)))

  -- The seconds since 1970 of a clock after 1970.
  unix-pos :
      (now : Instant) → unix_epoch * second ≤ now → unix now ≡ pos (now / second - unix_epoch)
  unfolding unix
  unix-pos now late = ground arith

  saturate_within :
      (x y w : ℕ)
      → y ≤ x
      → x ≤ y + w
      → (lt_ℤ (pos w) (saturate (sub_ℕ x y)) || lt_ℤ (saturate (sub_ℕ x y)) (sub_ℕ 0 w)) ≡ false
  unfolding saturate
  saturate_within x y w h k =
      let ordered : leb y x ≡ true = ground arith in
      elim (Bool-cases (leb w 0)) [
        | inl none_allowed ↦ rw (ordered, none_allowed) (ground arith)
        | inr some_allowed ↦ rw (ordered, some_allowed) (ground arith)
      ]

  fresh_within :
      (now later : Instant)
      → unix_epoch * second ≤ now
      → now ≤ later
      → later ≤ now / second * second + max_skew s
      → later < 2 ^ 63 * second
      → is_stale p s later (pos (now / second - unix_epoch)) ≡ false
  unfolding is_stale skew internal_seconds
  fresh_within now later late h k bound =
      let small : ltb (now / second - unix_epoch + unix_epoch) (2 ^ 63) ≡ true = ground arith in
      let back : now / second - unix_epoch + unix_epoch ≡ now / second = omega arith in
      rw (small, back)
        (saturate_within (later + 0 * second) (now / second * second) (max_skew s) (omega arith)
          (omega arith))

  -- What `Sign` returns goes on to the replay check.
  verify-sign_parts :
      {S : Type 0} (nonces : Option (Backend S)) (now later : Instant) (bytes : String)
      (params params' : List (String × String)) (st : S)
      → (s.secret == "") ≡ false
      → IsMap params
      → Permᴰ params params'
      → unix_epoch * second ≤ now
      → now ≤ later
      → later ≤ now / second * second + max_skew s
      → later < 2 ^ 63 * second
      → let ts = p.format_int (pos (now / second - unix_epoch)) in
        let sig = ts ++ ("." ++ (p.hex bytes ++ ("." ++ mac p s params ts (p.hex bytes)))) in
        (sign p s now (ok bytes) params ≡ ok sig)
        × (verify p s nonces later params' sig st ≡ use_nonce p s nonces later (p.hex bytes) st)
  unfolding sign mac message
  verify-sign_parts nonces now later bytes params params' st named v q late h k bound =
      let secs = now / second - unix_epoch in
      let ts = p.format_int (pos secs) in
      let text = message p params ts (p.hex bytes) in
      (
        rw (named, unix-pos now late) refl,
        verify-parts p s nonces later params' _ ts (p.hex bytes) (pos secs) st named
            (split-signature ts (p.hex bytes) s.secret text (laws.lacks-format_int secs)
                (laws.lacks-hex bytes)
              ∙ rw (canonical-perm p params params' q v) refl)
            (laws.parse_int-format_int secs (ground arith)) (fresh_within now later late h k bound),
      )

  -- What `Sign` returns for parameters is accepted by `Verify` for the same parameters, ranged over in
  -- any order, while the allowed skew lasts from the second it was signed in: by a signer without a
  -- backend for nonces, and by one with the in-memory backend where the nonce was not counted before.
  -- There must be a secret, the clock must be after 1970 and before 2^63 seconds.
  pub verify-sign :
      (now later : Instant) (bytes : String) (params params' : List (String × String)) (m : Memory)
      → (s.secret == "") ≡ false
      → IsMap params
      → Permᴰ params params'
      → unix_epoch * second ≤ now
      → now ≤ later
      → later ≤ now / second * second + max_skew s
      → later < 2 ^ 63 * second
      → lookup ("sig:" ++ p.hex bytes) m.events ≡ none
      → (sig : String) × (sign p s now (ok bytes) params ≡ ok sig)
        × (verify p s none later params' sig m ≡ (clean signer_name, m))
        × ((verify p s (some memory_backend) later params' sig m).0 ≡ clean signer_name)
  unfolding use_nonce memory_backend incr incr_event
  verify-sign now later bytes params params' m named v q late h k bound new =
      let (signed, alone) =
        verify-sign_parts none now later bytes params params' m named v q late h k bound in
      let (again, counted) =
        verify-sign_parts (some memory_backend) now later bytes params params' m named v q late h k
          bound in
      (_, signed, alone, ap (λ r. r.0) counted ∙ rw new refl)

  -- The two texts that are hashed differ, and the HMAC gives them one code.
  abbrev pub Collides :
      List (String × String) → String → String → List (String × String) → String → String → Type 0
  Collides params ts nonce params' ts' nonce' =
      (message p params ts nonce ≢ message p params' ts' nonce')
      × (p.hmac s.secret (message p params ts nonce)
          ≡ p.hmac s.secret (message p params' ts' nonce'))

  -- The code that was made for parameters, a time and a nonce is accepted in no signature for others:
  -- where `Verify` accepts a signature with that code, its time and its nonce are the same, and the
  -- parameters are the same under every key, unless these two messages themselves differ and the HMAC
  -- has one code for both. The maps have each key once, and the time that was signed is on one line, as
  -- `FormatInt` writes it.
  pub verify-tampered :
      {S : Type 0} (nonces : Option (Backend S)) (now : Instant)
      (params params' : List (String × String)) (ts nonce ts' nonce' sig : String) (st : S)
      → IsMap params
      → IsMap params'
      → lacks newline ts ≡ true
      → split dot sig ≡ ts' ∷ nonce' ∷ mac p s params ts nonce ∷ []
      → (verify p s nonces now params' sig st).0.detected ≡ false
      → (((key : String) → lookup key params ≡ lookup key params') × (ts ≡ ts') × (nonce ≡ nonce'))
        ⊎ Collides params ts nonce params' ts' nonce'
  unfolding mac
  verify-tampered nonces now params params' ts nonce ts' nonce' sig st v v' line parts accepted =
      let a = verify-clean p s nonces now params' sig st accepted in
      let (same_ts, same_nonce, code) = parts_injective (sym parts ∙ a.parts) in
      let text = message p params ts nonce in
      let text' = message p params' ts' nonce' in
      let codes : p.hmac s.secret text ≡ p.hmac s.secret text' =
        code ∙ rw (same_ts, same_nonce) refl in
      elim (Bool-cases (text == text')) [
        | inl same ↦ inl (
            message-injective p laws params params' ts nonce ts' nonce' v v' line
              (rw (same_ts) (laws.lacks-parse_int a.ts a.secs a.time)) ((eq_iff _ _).0 same))
        | inr other ↦ inr ((λ e. true_not_false (rw e (eq_refl text')) other), codes)
      ]
