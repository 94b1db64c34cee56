-- ===== src/Shared/Maps.antt =====
-- Go maps that give each key the same value have the same entries.
use mathlib.Core.Path.{◌≡◌, refl, sym, ap₂, subst, ◌∙◌}
use mathlib.Core.Logic.{inl, inr}
use mathlib.Core.Option.{none, some}
use mathlib.Core.List.{List, [], ◌∷◌}
use mathlib.Core.List.Permᴰ
use mathlib.Core.List.{Permᴰ}
use native.Mathlib.Omega.{arith}
use Prim.Native.String.{String}
use text.Mathlib.Text.{◌==◌}
use text.Mathlib.TextEquality.{eq_iff}
use text.Mathlib.TextPositions.{eq_refl}
use security_go.Shared.Tests.{Bool-cases}
use security_go.Shared.Assoc.{lookup, erase, lookup-erase, Fresh, IsMap, lookup-Fresh}

module _ {V : Type 0} where
  erase-Fresh : (k : String) (m : List (String × V)) → Fresh k m → erase k m ≡ m
  unfolding erase
  erase-Fresh k [] h = refl
  erase-Fresh k ((j, w) ∷ m) h = ground (arith, eq_iff j k, erase-Fresh k m h.1)

  Fresh-erase : (j k : String) (m : List (String × V)) → Fresh j m → Fresh j (erase k m)
  unfolding erase
  Fresh-erase j k [] h = tt
  Fresh-erase j k ((i, w) ∷ m) h = ground (arith, Fresh-erase j k m h.1)

  IsMap-erase : (k : String) (m : List (String × V)) → IsMap m → IsMap (erase k m)
  unfolding erase
  IsMap-erase k [] h = tt
  IsMap-erase k ((j, w) ∷ m) h = ground (arith, IsMap-erase k m h.1, Fresh-erase j k m h.0)

  some_injective : {a b : V} → some a ≡ some b → a ≡ b
  some_injective e = cc

  -- An entry may stand first.
  erase-Permᴰ :
      (k : String) (v : V) (m : List (String × V))
      → IsMap m
      → lookup k m ≡ some v
      → Permᴰ ((k, v) ∷ erase k m) m
  unfolding lookup erase
  erase-Permᴰ k v [] h e = cc
  erase-Permᴰ k v ((j, w) ∷ m) h e = elim (Bool-cases (j == k)) [
    | inl same ↦
        let jk = (eq_iff j k).0 same in
        rw same (
          Permᴰ.cons (ap₂ (λ x y. (x, y)) (sym jk) (sym (some_injective (rw same at e)))) (
            subst (Permᴰ (erase k m)) (erase-Fresh k m (subst (λ x. Fresh x m) jk h.0))
              (Permᴰ.refl (erase k m))))
    | inr differs ↦ rw differs (
        Permᴰ.trans (Permᴰ.swap refl refl)
          (Permᴰ.cons refl (erase-Permᴰ k v m h.1 (rw differs at e))))
  ]

  nothing : (m : List (String × V)) → ((k : String) → none ≡ lookup k m) → Permᴰ [] m
  unfolding lookup
  nothing [] h = Permᴰ.refl []
  nothing ((j, w) ∷ m) h = cc (rw (eq_refl j) at (h j))

  rest :
      (k : String) (v : V) (m m' : List (String × V))
      → Fresh k m
      → ((j : String) → lookup j ((k, v) ∷ m) ≡ lookup j m')
      → (j : String) → lookup j m ≡ lookup j (erase k m')
  unfolding lookup
  rest k v m m' f e j = elim (Bool-cases (k == j)) [
    | inl same ↦
        lookup-Fresh j m (subst (λ x. Fresh x m) ((eq_iff k j).0 same) f)
        ∙ sym (lookup-erase k j m' ∙ rw same refl)
    | inr differs ↦ (rw differs at (e j)) ∙ sym (lookup-erase k j m' ∙ rw differs refl)
  ]

  pub lookup-Permᴰ :
      (m m' : List (String × V))
      → IsMap m
      → IsMap m'
      → ((k : String) → lookup k m ≡ lookup k m')
      → Permᴰ m m'
  unfolding lookup
  lookup-Permᴰ [] m' h h' e = nothing m' e
  lookup-Permᴰ ((k, v) ∷ m) m' h h' e =
      Permᴰ.trans
        (Permᴰ.cons refl
          (lookup-Permᴰ m (erase k m') h.1 (IsMap-erase k m' h') (rest k v m m' h.0 e)))
        (erase-Permᴰ k v m' h' (sym (e k) ∙ rw (eq_refl k) refl))
