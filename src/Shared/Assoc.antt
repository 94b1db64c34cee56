-- ===== src/Shared/Assoc.antt =====
-- A Go map with string keys: an association list in which each key is stored once.
use Prim.Native.String.{String}
use mathlib.Core.Path.{◌≡◌, refl, ap, subst}
use mathlib.Core.Logic.{◌≢◌, inl, inr}
use mathlib.Core.Bool.{Bool}
use mathlib.Core.Option.{Option, none, some}
use mathlib.Core.List.{List, [], ◌∷◌}
use native.Mathlib.Omega.{arith}
use text.Mathlib.Text.{◌==◌}
use text.Mathlib.TextEquality.{eq_iff}
use security_go.Shared.Tests.{if◌then◌else◌, Bool-cases}
use security_go.Shared.Lists.{In}

module _ {ℓ} {V : Type ℓ} where
  unfoldable pub lookup : String → List (String × V) → Option V
  lookup key [] = none
  lookup key ((first, value) ∷ entries) =
      let later = lookup key entries in if first == key then some value else later

  -- `m[k] = v`
  unfoldable pub insert : String → V → List (String × V) → List (String × V)
  insert key value [] = (key, value) ∷ []
  insert key value ((first, old) ∷ entries) =
      let later = insert key value entries in
      if first == key then (key, value) ∷ entries else (first, old) ∷ later

  -- `delete(m, k)`
  unfoldable pub erase : String → List (String × V) → List (String × V)
  erase k [] = []
  erase k ((j, w) ∷ m) = let rest = erase k m in if j == k then rest else (j, w) ∷ rest

  -- A loop that deletes each entry that fails the test.
  unfoldable pub retain : (V → Bool) → List (String × V) → List (String × V)
  retain keep [] = []
  retain keep ((j, w) ∷ m) = let rest = retain keep m in if keep w then (j, w) ∷ rest else rest

  -- What an assignment to `key` leaves to read under the key `asked`.
  pub lookup-insert :
      (key asked : String) (value : V) (entries : List (String × V))
      → lookup asked (insert key value entries)
        ≡ (if key == asked then some value else lookup asked entries)
  unfolding lookup insert
  lookup-insert key asked value [] = refl
  lookup-insert key asked value ((first, old) ∷ entries) =
      let later = lookup-insert key asked value entries in
      ground (arith, later, eq_iff first key, eq_iff first asked, eq_iff key asked)

  pub lookup-erase :
      (k j : String) (m : List (String × V))
      → lookup j (erase k m) ≡ (if k == j then none else lookup j m)
  unfolding lookup erase
  lookup-erase k j [] = ground arith
  lookup-erase k j ((i, w) ∷ m) =
      ground (arith, eq_iff k j, eq_iff i k, eq_iff i j, lookup-erase k j m)

  -- No entry has the key.
  abbrev pub Fresh : String → List (String × V) → Type 0
  Fresh k [] = Unit
  Fresh k ((j, w) ∷ m) = (j ≢ k) × Fresh k m

  -- Each key is stored once, as in a Go map.
  abbrev pub IsMap : List (String × V) → Type 0
  IsMap [] = Unit
  IsMap ((j, w) ∷ m) = Fresh j m × IsMap m

  pub lookup-Fresh : (k : String) (m : List (String × V)) → Fresh k m → lookup k m ≡ none
  unfolding lookup
  lookup-Fresh k [] h = refl
  lookup-Fresh k ((j, w) ∷ m) h = ground (arith, eq_iff j k, lookup-Fresh k m h.1)

  insert-Fresh :
      (i k : String) (v : V) (m : List (String × V)) → i ≢ k → Fresh k m → Fresh k (insert i v m)
  unfolding insert
  insert-Fresh i k v [] n h = (n, tt)
  insert-Fresh i k v ((j, w) ∷ m) n h = ground (arith, eq_iff j i, insert-Fresh i k v m n h.1)

  pub insert-IsMap : (k : String) (v : V) (m : List (String × V)) → IsMap m → IsMap (insert k v m)
  unfolding insert
  insert-IsMap k v [] h = (tt, tt)
  insert-IsMap k v ((j, w) ∷ m) h =
      ground (arith, eq_iff j k, insert-IsMap k v m h.1, λ (n : k ≢ j). insert-Fresh k j v m n h.0)

  retain-Fresh :
      (keep : V → Bool) (k : String) (m : List (String × V)) → Fresh k m → Fresh k (retain keep m)
  unfolding retain
  retain-Fresh keep k [] h = tt
  retain-Fresh keep k ((j, w) ∷ m) h = ground (arith, retain-Fresh keep k m h.1)

  pub retain-IsMap : (keep : V → Bool) (m : List (String × V)) → IsMap m → IsMap (retain keep m)
  unfolding retain
  retain-IsMap keep [] h = tt
  retain-IsMap keep ((j, w) ∷ m) h =
      ground (arith, retain-IsMap keep m h.1, retain-Fresh keep j m h.0)

  -- What a lookup finds after the loop.
  abbrev pub kept : (V → Bool) → Option V → Option V
  kept keep none = none
  kept keep (some v) = if keep v then some v else none

  pub lookup-retain :
      (keep : V → Bool) (k : String) (m : List (String × V))
      → IsMap m
      → lookup k (retain keep m) ≡ kept keep (lookup k m)
  unfolding lookup retain
  lookup-retain keep k [] h = refl
  lookup-retain keep k ((j, w) ∷ m) (f, h) =
      ground
        (arith, eq_iff j k, lookup-retain keep k m h, λ (e : j ≡ k). lookup-Fresh k m (rw (← e) f))

module _ {V : Type 0} where
  not-In-Fresh : (k : String) (v : V) (m : List (String × V)) → Fresh k m → In (k, v) m → ⊥
  not-In-Fresh k v [] h i = i
  not-In-Fresh k v ((j, w) ∷ m) h (inl e) = h.0 (ap (λ (p : String × V). p.0) e)
  not-In-Fresh k v ((j, w) ∷ m) h (inr i) = not-In-Fresh k v m h.1 i

  pub In-lookup : (k : String) (v : V) (m : List (String × V)) → lookup k m ≡ some v → In (k, v) m
  unfolding lookup
  In-lookup k v [] h = cc
  In-lookup k v ((j, w) ∷ m) h = elim (Bool-cases (j == k)) [
    | inl same ↦ inl (ground (arith, eq_iff j k))
    | inr other ↦ inr (In-lookup k v m (rw other at h))
  ]

  pub lookup-In :
      (k : String) (v : V) (m : List (String × V)) → IsMap m → In (k, v) m → lookup k m ≡ some v
  unfolding lookup
  lookup-In k v [] h i = elim i [ ]
  lookup-In k v ((j, w) ∷ m) h (inl e) = ground (arith, eq_iff j k)
  lookup-In k v ((j, w) ∷ m) h (inr i) = elim (Bool-cases (j == k)) [
    | inl same ↦ absurd (not-In-Fresh k v m (subst (λ x. Fresh x m) ((eq_iff j k).0 same) h.0) i)
    | inr other ↦ rw other (lookup-In k v m h.1 i)
  ]
