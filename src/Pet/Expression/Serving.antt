-- ===== src/Pet/Expression/Serving.antt =====
-- pet/expression.go: what `ExpressionHandler` answers.
use Prim.Native.String.{◌++◌}
use security_go.Shared.{
  ℕ, zero, suc, List, [], ◌∷◌, some, All, subst, ◌≡◌, ◌≢◌, refl, ap, ◌∙◌, ◌⊎◌, inl, inr, true,
  String, In,
}
use security_go.Shared.Text.{lacks, uncut}
use security_go.Pet.Expression.{
  Expression, served, svg_type, cacheable, expressions, string, nth, expression_arts,
  svg_for_expression, expression_handler,
}
use security_go.Pet.Expression.Slugs.{listed-entry, expression_of-string_iff}

-- The documented behaviour of `strings.TrimSuffix`.
pub record Laws (trim_suffix : String → String → String) : Type 0 where
  pub with_suffix : (s suffix : String) → trim_suffix (s ++ suffix) suffix ≡ s
  pub without_suffix :
      (s suffix : String) → ((t : String) → s ≢ t ++ suffix) → trim_suffix s suffix ≡ s

some_injective : {a b : String × String} → some a ≡ some b → a ≡ b
some_injective e = cc

module _ (embed : String → String) where
  -- A slug has no dot.
  abbrev Dotless : String × String → Type 0
  Dotless a = lacks b'.' a.0 ≡ true

  All-nth :
      (m : List (String × String)) (k : ℕ) (a : String × String)
      → All Dotless m
      → nth m k ≡ some a
      → Dotless a
  unfolding nth
  All-nth [] k a h e = cc
  All-nth (b ∷ m) zero a (d, h) e = subst Dotless (some_injective e) d
  All-nth (b ∷ m) (suc k) a (d, h) e = All-nth m k a h e

  expression_arts-Dotless : All Dotless (expression_arts embed)
  unfolding expression_arts lacks
  expression_arts-Dotless = (
    refl,
    (refl, (refl, (refl, (refl, (refl, (refl, (refl, (refl, (refl, (refl, (refl, tt))))))))))),
  )

  string-lacks : (e : Expression) → In e (expressions embed) → lacks b'.' (string embed e) ≡ true
  string-lacks e h =
      let (k, a, at, q) = listed-entry embed e h in
      ap (lacks b'.') q ∙ All-nth (expression_arts embed) k a expression_arts-Dotless at

  module _ (base : String → String) (trim_suffix : String → String → String)
      (laws : Laws trim_suffix) where
    trimmed :
        (slug segment : String)
        → lacks b'.' slug ≡ true
        → (segment ≡ slug) ⊎ (segment ≡ slug ++ ".svg")
        → trim_suffix segment ".svg" ≡ slug
    trimmed slug segment h (inl e) =
        ap (λ x. trim_suffix x ".svg") e
        ∙ laws.without_suffix slug ".svg" (λ t. uncut b'.' "." slug t "svg" refl h)
    trimmed slug segment h (inr e) = ap (λ x. trim_suffix x ".svg") e ∙ laws.with_suffix slug ".svg"

    -- The picture of each expression is served, under its slug with `.svg` as the name, for a URL whose last
    -- segment is the slug, with or without `.svg`. `strings.TrimSuffix` is as documented.
    pub expression_handler-served :
        (url_path : String) (e : Expression)
        → In e (expressions embed)
        → (base url_path ≡ string embed e) ⊎ (base url_path ≡ string embed e ++ ".svg")
        → expression_handler embed base trim_suffix url_path
          ≡ served svg_type cacheable (string embed e ++ ".svg") (svg_for_expression embed e)
    unfolding expression_handler
    expression_handler-served url_path e listed h =
        rw
          (
            trimmed (string embed e) (base url_path) (string-lacks e listed) h,
            (expression_of-string_iff embed (string embed e) e).1 (listed, refl),
          )
          refl
