-- ===== src/Httpval/CookieAttrs/Stripping.antt =====
-- httpval/cookie_attrs.go: the loop of `stripCookiePrefix` ends.
use Prim.Native.Char.{code}
use Prim.Native.String.{[] as eps, ◌∷◌ as cons}
use text.Mathlib.Text.{starts_with}
use security_go.Shared.{
  ℕ, zero, suc, ◌≤◌, ◌<◌, ◌≡◌, refl, inl, inr, Bool, true, false, ◌&&◌, String, some, ltb, arith,
  Bool-cases,
}
use security_go.Shared.Text.{size, slice_from, slice_from_within}
use security_go.Httpval.CookieAttrs.{Packages, prefix, strip_cookie_prefix}

abbrev is_ascii : String → Bool
is_ascii eps = true
is_ascii (cons c s) = ltb (code c) 128 && is_ascii s

-- The documented behaviour of package strings that the loop rests on: `TrimSpace` takes away bytes at
-- the ends, all of the white space; `ToLower` maps each character to one, of at least a byte.
pub record Laws (p : Packages) : Type 0 where
  pub trim_space-size : (s : String) → size (p.trim_space s) ≤ size s
  pub trim_space-trim_space : (s : String) → p.trim_space (p.trim_space s) ≡ p.trim_space s
  pub to_lower-size :
      (s t : String) → is_ascii t ≡ true → starts_with (p.to_lower s) t ≡ true → size t ≤ size s

module _ (p : Packages) (laws : Laws p) where
  -- What the loop returns, whatever the fuel above the size of the text.
  abbrev Stripped : String → String → Type 0
  Stripped input rest =
      ((fuel : ℕ) → size input < fuel → strip_cookie_prefix p fuel input ≡ some rest)
      × (starts_with (p.to_lower rest) prefix ≡ false)
      × (p.trim_space rest ≡ rest)

  bare-returns :
      (input : String) (fuel : ℕ)
      → starts_with (p.to_lower (p.trim_space input)) prefix ≡ false
      → size input < fuel
      → strip_cookie_prefix p fuel input ≡ some (p.trim_space input)
  unfolding strip_cookie_prefix
  bare-returns input zero bare h = absurd (omega arith)
  bare-returns input (suc fuel) bare h = rw bare refl

  prefixed-returns :
      (input later rest : String) (fuel : ℕ)
      → starts_with (p.to_lower (p.trim_space input)) prefix ≡ true
      → slice_from 11 (p.trim_space input) ≡ some later
      → size later < size input
      → ((f : ℕ) → size later < f → strip_cookie_prefix p f later ≡ some rest)
      → size input < fuel
      → strip_cookie_prefix p fuel input ≡ some rest
  unfolding strip_cookie_prefix
  prefixed-returns input later rest zero prefixed taken less returns h = absurd (omega arith)
  prefixed-returns input later rest (suc fuel) prefixed taken less returns h =
      rw (prefixed, taken) (returns fuel (omega arith))

  -- The prefix is within the text, and there are bytes after it to take.
  prefix-size :
      (input : String)
      → starts_with (p.to_lower (p.trim_space input)) prefix ≡ true
      → 11 ≤ size (p.trim_space input)
  unfolding size
  prefix-size input prefixed = laws.to_lower-size (p.trim_space input) prefix refl prefixed

  -- One turn of the loop, given the turns for shorter texts.
  strip_next :
      (input : String)
      → ((later : String) → size later < size input → (rest : String) × Stripped later rest)
      → (rest : String) × Stripped input rest
  strip_next input turns =
      elim (Bool-cases (starts_with (p.to_lower (p.trim_space input)) prefix)) [
        | inr bare ↦ (
          p.trim_space input,
          (λ fuel. bare-returns input fuel bare, bare, laws.trim_space-trim_space input),
        )
        | inl prefixed ↦
            let (later, taken, smaller) =
              slice_from_within 11 (p.trim_space input) (prefix-size input prefixed) in
            let trimmed = laws.trim_space-size input in
            let less : size later < size input = omega arith in
            let (rest, (returns, bare, clear)) = turns later less in
            (
              rest,
              (
                λ fuel. prefixed-returns input later rest fuel prefixed taken less returns,
                bare,
                clear,
              ),
            )
      ]

  strip-within : (n : ℕ) (input : String) → size input < n → (rest : String) × Stripped input rest
  strip-within zero input h = absurd (omega arith)
  strip-within (suc n) input h = strip_next input (λ later less. strip-within n later (omega arith))

  -- The loop ends, and no slice is out of range: with more fuel than the text has bytes it gives a
  -- result, which does not start with the prefix in any case, and has no white space at its ends.
  -- `strings.TrimSpace` and `strings.ToLower` are as documented.
  pub strip_cookie_prefix-total :
      (fuel : ℕ) (input : String)
      → size input < fuel
      → (rest : String) × (strip_cookie_prefix p fuel input ≡ some rest)
        × (starts_with (p.to_lower rest) prefix ≡ false)
        × (p.trim_space rest ≡ rest)
  strip_cookie_prefix-total fuel input h =
      let (rest, (returns, bare, clear)) = strip-within fuel input h in
      (rest, returns fuel h, bare, clear)
