-- ===== src/Storage/IpBlacklist/Racing/Counts.antt =====
-- httpval/ip_blacklist.go: how many of the attacks from an address have come how far.
use text.Mathlib.Text.{◌==◌ as str_eq}
use security_go.Shared.{
  ℕ, ◌+◌, ◌≡◌, refl, Bool, true, false, String, List, [], ◌∷◌, ok, err, if◌then◌else◌, arith, All,
  Bool-cases, inl, inr,
}
use security_go.Shared.Time.{Instant}
use security_go.Storage.{Backend}
use security_go.Storage.IpBlacklist.{IpBlacklist}
use security_go.Storage.IpBlacklist.Racing.{
  Attack, arrives, reaches, returns, next_call, Turn, first, other, arriving, IsBack,
}

-- Attacks that were counted, that are about to ban, and that were answered that they stay unpunished.
abbrev pub is_counted : Attack → Bool
is_counted arrives = false
is_counted reaches = true
is_counted (returns x) = true

abbrev pub is_waiting : Attack → Bool
is_waiting arrives = false
is_waiting reaches = true
is_waiting (returns x) = false

abbrev pub is_spared : Attack → Bool
is_spared arrives = false
is_spared reaches = false
is_spared (returns (err e)) = false
is_spared (returns (ok banned)) = if banned then false else true

abbrev pub bit : Bool → ℕ
bit true = 1
bit false = 0

module _ (ip : String) where
  abbrev pub weight : (Attack → Bool) → String × Attack → ℕ
  weight f q = if str_eq q.0 ip then bit (f q.1) else 0

  -- How many of the attacks from the address are such.
  unfoldable pub count_of : (Attack → Bool) → List (String × Attack) → ℕ
  count_of f [] = 0
  count_of f (q ∷ qs) = weight f q + count_of f qs

  -- One attack changes.
  abbrev pub Change :
      {S : Type 0}
      → Backend S
      → IpBlacklist
      → Instant
      → List (String × Attack)
      → S
      → List (String × Attack)
      → S
      → Type 0
  Change storage b now qs s qs' s' =
      (j : String) × (a : Attack) × (s' ≡ (next_call storage b now j a s).1)
      × ((f : Attack → Bool)
          → count_of f qs' + weight f (j, a)
            ≡ count_of f qs + weight f (j, (next_call storage b now j a s).0))

  pub Turn-Change :
      {S : Type 0} (storage : Backend S) (b : IpBlacklist) (now : Instant)
      {qs : List (String × Attack)} {s : S} {qs' : List (String × Attack)} {s' : S}
      → Turn storage b now qs s qs' s'
      → Change storage b now qs s qs' s'
  unfolding count_of
  Turn-Change storage b now (first j a qs s) = (j, a, refl, λ f. omega arith)
  Turn-Change storage b now (other q turn) =
      let (j, a, e, counts) = Turn-Change storage b now turn in
      (j, a, e, λ f. omega (arith, counts f))

  pub none_counted :
      (ips : List String)
      → (count_of is_counted (arriving ips) ≡ 0) × (count_of is_spared (arriving ips) ≡ 0)
  unfolding count_of arriving
  none_counted [] = (refl, refl)
  none_counted (j ∷ ips) =
      let (c, p) = none_counted ips in
      elim (Bool-cases (str_eq j ip)) [
        | inl same ↦ rw same (omega (arith, c), omega (arith, p))
        | inr differs ↦ rw differs (omega (arith, c), omega (arith, p))
      ]

  pub all_counted :
      (qs : List (String × Attack))
      → All IsBack qs
      → (count_of is_counted qs ≡ count_of (λ a. true) qs) × (count_of is_waiting qs ≡ 0)
  unfolding count_of
  all_counted [] back = (refl, refl)
  all_counted ((j, a) ∷ qs) ((x, e), back) =
      let (c, w) = all_counted qs back in
      elim (Bool-cases (str_eq j ip)) [
        | inl same ↦ rw (same, e) (omega (arith, c), omega (arith, w))
        | inr differs ↦ rw differs (omega (arith, c), omega (arith, w))
      ]
