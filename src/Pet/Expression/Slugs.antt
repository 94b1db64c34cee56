-- ===== src/Pet/Expression/Slugs.antt =====
-- pet/expression.go: the slugs and the expressions determine each other.
use text.Mathlib.Text.{◌==◌}
use security_go.Shared.{
  ℕ, zero, suc, ◌+◌, ◌≡◌, ◌↔◌, refl, sym, ap, ◌∙◌, inl, inr, Bool, true, not, ◌&&◌, String, List,
  [], ◌∷◌, some, In, arith, Bool-cases, eq_iff, eq_refl, true_not_false, subst,
}
use security_go.Shared.Int.{pos}
use security_go.Shared.Assoc.{IsMap, Fresh}
use security_go.Pet.Expression.{
  Expression, nth, indices, search, expression_arts, art, expressions, string, expression_of,
}

abbrev Arts : Type 0
Arts = List (String × String)

abbrev entry : String → String → String × String
entry name svg = (name, svg)

abbrev found : Expression → Expression × Bool
found e = (e, true)

-- Tests that a computation decides.
abbrev is_fresh : String → Arts → Bool
is_fresh k [] = true
is_fresh k ((j, w) ∷ m) = not (j == k) && is_fresh k m

abbrev is_map : Arts → Bool
is_map [] = true
is_map ((j, w) ∷ m) = is_fresh j m && is_map m

is_fresh-Fresh : (k : String) (m : Arts) → is_fresh k m ≡ true → Fresh k m
is_fresh-Fresh k [] h = tt
is_fresh-Fresh k ((j, w) ∷ m) h = ground (arith, eq_iff j k, is_fresh-Fresh k m)

is_map-IsMap : (m : Arts) → is_map m ≡ true → IsMap m
is_map-IsMap [] h = tt
is_map-IsMap ((j, w) ∷ m) h = ground (arith, is_fresh-Fresh j m, is_map-IsMap m)

Fresh-nth :
    (name svg : String) (k : ℕ) (m : Arts) → Fresh name m → ¬ nth m k ≡ some (entry name svg)
unfolding nth
Fresh-nth name svg k [] f h = cc
Fresh-nth name svg zero ((j, w) ∷ m) (n, f) h = n (same h)
  where
    same : some (entry j w) ≡ some (entry name svg) → j ≡ name
    same e = cc
Fresh-nth name svg (suc k) ((j, w) ∷ m) (n, f) h = Fresh-nth name svg k m f h

first_of : {a b : String × String} → some a ≡ some b → a.0 ≡ b.0
first_of e = cc

search-nth :
    (name svg : String) (i k : ℕ) (m : Arts)
    → IsMap m
    → nth m k ≡ some (entry name svg)
    → search name i m ≡ found (pos (i + k))
unfolding nth search
search-nth name svg i k [] v h = cc
search-nth name svg i zero ((j, w) ∷ m) (f, v) h =
    rw (first_of h, eq_refl name) (ap (λ n. (pos n, true)) (omega arith))
search-nth name svg i (suc k) ((j, w) ∷ m) (f, v) h = elim (Bool-cases (j == name)) [
  | inl same ↦
      absurd
        (Fresh-nth j svg k m f (h ∙ ap (λ x. some (entry x svg)) (sym ((eq_iff j name).0 same))))
  | inr other ↦
      rw other (search-nth name svg (i + 1) k m v h ∙ ap (λ n. (pos n, true)) (omega arith))
]

nth-search :
    (name : String) (i : ℕ) (m : Arts) (e : Expression)
    → search name i m ≡ found e
    → (k : ℕ) × (svg : String) × (e ≡ pos (i + k)) × (nth m k ≡ some (entry name svg))
unfolding nth search
nth-search name i [] e h = absurd (true_not_false refl (ap (λ x. x.1) (sym h)))
nth-search name i ((j, w) ∷ m) e h = elim (Bool-cases (j == name)) [
  | inl same ↦ (
    0,
    w,
    ap (λ x. x.0) (sym (rw same at h)) ∙ ap pos (omega arith),
    ap (λ x. some (entry x w)) ((eq_iff j name).0 same),
  )
  | inr other ↦
      let (k, svg, q, at) = nth-search name (i + 1) m e (rw other at h) in
      (suc k, svg, q ∙ ap pos (omega arith), at)
]

shift : (i k : ℕ) → i + 1 + k ≡ i + suc k
shift i k = omega arith

In-indices :
    (i k : ℕ) (m : Arts) (a : String × String) → nth m k ≡ some a → In (pos (i + k)) (indices m i)
unfolding nth indices
In-indices i k [] a h = cc
In-indices i zero (b ∷ m) a h = inl (ap pos (omega arith))
In-indices i (suc k) (b ∷ m) a h =
    inr (subst (λ n. In (pos n) (indices m (i + 1))) (shift i k) (In-indices (i + 1) k m a h))

indices-In :
    (i : ℕ) (m : Arts) (e : Expression)
    → In e (indices m i)
    → (k : ℕ) × (a : String × String) × (e ≡ pos (i + k)) × (nth m k ≡ some a)
unfolding nth indices
indices-In i [] e h = elim h [ ]
indices-In i (b ∷ m) e (inl q) = (0, b, sym q ∙ ap pos (omega arith), refl)
indices-In i (b ∷ m) e (inr h) =
    let (k, a, q, at) = indices-In (i + 1) m e h in (suc k, a, q ∙ ap pos (omega arith), at)

module _ (embed : String → String) where
  expression_arts-IsMap : IsMap (expression_arts embed)
  unfolding expression_arts
  expression_arts-IsMap = is_map-IsMap (expression_arts embed) refl

  string-nth :
      (k : ℕ) (a : String × String)
      → nth (expression_arts embed) k ≡ some a
      → string embed (pos k) ≡ a.0
  unfolding string art
  string-nth k a h = rw h refl

  -- Each of the expressions has an entry, whose slug is its `String`.
  pub listed-entry :
      (e : Expression)
      → In e (expressions embed)
      → (k : ℕ) × (a : String × String) × (nth (expression_arts embed) k ≡ some a)
        × (string embed e ≡ a.0)
  unfolding expressions
  listed-entry e h =
      let (k, a, q, at) = indices-In 0 (expression_arts embed) e h in
      (
        k,
        a,
        at,
        ap (string embed) q ∙ ap (λ n. string embed (pos n)) (omega arith) ∙ string-nth k a at,
      )

  -- `ExpressionOf` finds an expression under a name exactly if it is one of `Expressions` and the name is
  -- its `String`: the slugs are different, and the two functions are inverse to each other.
  pub expression_of-string_iff :
      (name : String) (e : Expression)
      → (expression_of embed name ≡ (e, true))
        ↔ (In e (expressions embed) × (string embed e ≡ name))
  unfolding expression_of expressions
  expression_of-string_iff name e =
      let arts = expression_arts embed in
      (
        λ h.
            let (k, svg, q, at) = nth-search name 0 arts e h in
            (
              subst (λ x. In x (indices arts 0)) (sym q) (In-indices 0 k arts (name, svg) at),
              ap (string embed) q
                  ∙ ap (λ n. string embed (pos n)) (omega arith)
                  ∙ string-nth k (name, svg) at,
            ),
        λ (listed, q).
            let (k, a, e', at) = indices-In 0 arts e listed in
            let same : a.0 ≡ name =
              sym (string-nth k a at)
              ∙ ap (λ n. string embed (pos n)) (omega arith)
              ∙ ap (string embed) (sym e')
              ∙ q in
            search-nth name a.1 0 k arts expression_arts-IsMap
              (at ∙ ap (λ x. some (entry x a.1)) same)
            ∙ ap found (sym e'),
      )
