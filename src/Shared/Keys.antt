-- ===== src/Shared/Keys.antt =====
-- Texts with different prefixes are different.
use Prim.Native.Char.{code}
use Prim.Native.String.{String, [], ◌∷◌, ◌++◌}
use mathlib.Core.Path.{◌≡◌, ap, sym, ◌∙◌}
use mathlib.Core.Logic.{◌≢◌, inl, inr}
use mathlib.Core.Bool.{Bool, true, false}
use native.Mathlib.Omega.{arith}
use text.Mathlib.Text.{◌==◌}
use text.Mathlib.TextEquality.{eq_iff}
use text.Mathlib.TextLemmas.{cons-append, head-eq_of_cons-eq, tail-eq_of_cons-eq}
use security_go.Shared.Tests.{if◌then◌else◌, Bool-cases, ◌==◌ as nat_eq}

-- The texts differ at a place that both have.
abbrev pub clash : String → String → Bool
clash (c ∷ s) (d ∷ t) = if nat_eq (code c) (code d) then clash s t else true
clash _ _ = false

append-ne : (s t x y : String) → clash s t ≡ true → (s ++ x) ≢ (t ++ y)
append-ne [] t x y h e = cc
append-ne (c ∷ s) [] x y h e = cc
append-ne (c ∷ s) (d ∷ t) x y h e =
    let e' : (c ∷ (s ++ x)) ≡ (d ∷ (t ++ y)) = sym (cons-append c s x) ∙ e ∙ cons-append d t y in
    append-ne s t x y (ground (arith, ap code (head-eq_of_cons-eq e'))) (tail-eq_of_cons-eq e')

pub clash-eq : (s t x y : String) → clash s t ≡ true → ((s ++ x) == (t ++ y)) ≡ false
clash-eq s t x y h = elim (Bool-cases ((s ++ x) == (t ++ y))) [
  | inl same ↦ absurd (append-ne s t x y h ((eq_iff _ _).0 same))
  | inr other ↦ other
]
