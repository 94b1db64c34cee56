-- ===== src/Httpval/CookieAttrs/Attributes.antt =====
-- httpval/cookie_attrs.go: what is reported of a cookie.
use Prim.Native.String.{◌++◌}
use mathlib.Core.List.{◌++◌ as append}
use text.Mathlib.Text.{◌==◌, starts_with}
use text.Mathlib.TextEquality.{starts_with_iff}
use text.Mathlib.TextLemmas.{append_assoc}
use security_go.Shared.{
  ℕ, ◌<◌, ◌≡◌, ◌≢◌, ◌↔◌, ◌⊎◌, refl, sym, ◌∙◌, inl, inr, Bool, true, false, ◌&&◌, ◌||◌, String, List,
  [], ◌∷◌, some, none, In, drop, arith, Bool-cases, Option-cases, eq_iff, true_not_false,
}
use security_go.Shared.Int.{pos, lt_ℤ}
use security_go.Shared.Text.{size, split, lacks, uncut}
use security_go.Security.{Result}
use security_go.Httpval.CookieAttrs.{
  Packages, CookieAttrs, strip_cookie_prefix, has_field, has_attr, missing_attr, missing_attrs,
  check, check_value, detect_raw, detect, report,
}
use security_go.Httpval.CookieAttrs.Stripping.{Laws, strip_cookie_prefix-total}

abbrev named : String → String → Bool
named f attr = (f == attr) || starts_with f (attr ++ "=")

named_iff :
    (f attr : String) → (named f attr ≡ true) ↔ ((f ≡ attr) ⊎ (starts_with f (attr ++ "=") ≡ true))
named_iff f attr = ground (arith, eq_iff f attr)

-- The empty text is no name, and has no prefix with `=`.
empty_not_named :
    (f attr : String) → attr ≢ "" → f ≡ "" → ¬ ((f ≡ attr) ⊎ (starts_with f (attr ++ "=") ≡ true))
unfolding lacks
empty_not_named f attr n e (inl h) = n (sym h ∙ e)
empty_not_named f attr n e (inr h) =
    let (u, q) = (starts_with_iff f (attr ++ "=")).0 h in
    uncut b'=' "=" "" attr u refl refl (sym e ∙ sym q ∙ append_assoc attr "=" u)

and_iff : (a b : Bool) → (a && b ≡ true) ↔ ((a ≡ true) × (b ≡ true))
and_iff a b = ground arith

none_not_some : {x : String × String} → ¬ none ≡ some x
none_not_some e = cc

differs : (attr : String) → (attr == "") ≡ false → attr ≢ ""
differs attr h e = true_not_false ((eq_iff attr "").1 e) h

module _ (p : Packages) where
  -- A field, trimmed and in lower case, is the name, or the name with a value.
  abbrev pub Carries : List String → String → Type 0
  Carries fields attr =
      (field : String) × In field fields
      × ((p.to_lower (p.trim_space field) ≡ attr)
          ⊎ (starts_with (p.to_lower (p.trim_space field)) (attr ++ "=") ≡ true))

  has_field_iff :
      (fields : List String) (attr : String)
      → attr ≢ ""
      → (has_field p fields attr ≡ true) ↔ Carries fields attr
  unfolding has_field
  has_field_iff [] attr n = (λ h. cc, λ c. elim c.1 [ ])
  has_field_iff (field ∷ fields) attr n =
      let (there, back) = has_field_iff fields attr n in
      let f = p.to_lower (p.trim_space field) in
      let (hit, hit_back) = named_iff f attr in
      elim (Bool-cases (f == "")) [
        | inl empty ↦ rw empty (
          λ h. let (x, at, carried) = there h in (x, inr at, carried),
          λ (x, at, carried). elim at [
            | inl here ↦ absurd (empty_not_named f attr n ((eq_iff f "").0 empty) (rw here carried))
            | inr later ↦ back (x, later, carried)
          ],
        )
        | inr filled ↦ elim (Bool-cases (named f attr)) [
          | inl found ↦ rw (filled, found) (λ h. (field, inl refl, hit found), λ c. refl)
          | inr other ↦
              rw (filled, other)
                (
                  λ h. let (x, at, carried) = there h in (x, inr at, carried),
                  λ (x, at, carried). elim at [
                    | inl here ↦ absurd (true_not_false (hit_back (rw here carried)) other)
                    | inr later ↦ back (x, later, carried)
                  ],
                )
        ]
      ]

  module _ (c : CookieAttrs) where
    -- A required attribute is not among the fields after the first.
    abbrev pub Lacks : String → Bool → String → Type 0
    Lacks raw required attr = (required ≡ true) × (¬ Carries (drop 1 (split b';' raw)) attr)

    abbrev pub LacksAny : String → Type 0
    LacksAny raw =
        Lacks raw c.require_secure "secure"
        ⊎ Lacks raw c.require_http_only "httponly"
        ⊎ Lacks raw c.require_same_site "samesite"

    abbrev pub IsOverlong : String → Type 0
    IsOverlong value =
        (lt_ℤ (pos 0) c.max_value_len ≡ true) × (lt_ℤ c.max_value_len (pos (size value)) ≡ true)

    abbrev pub IsInsecure : String → String → Type 0
    IsInsecure raw value =
        LacksAny raw ⊎ IsOverlong value ⊎ ((c.require_non_empty ≡ true) × (value ≡ ""))

    missing_attr-cases :
        (raw : String) (required : Bool) (attr display : String)
        → attr ≢ ""
        → ((missing_attr p c raw required attr display ≡ []) × (¬ Lacks raw required attr))
          ⊎ ((missing_attr p c raw required attr display ≡ display ∷ []) × Lacks raw required attr)
    unfolding missing_attr has_attr
    missing_attr-cases raw required attr display n =
        let fields = drop 1 (split b';' raw) in
        let (there, back) = has_field_iff fields attr n in
        elim (Bool-cases required) [
          | inr free ↦ inl (rw free refl, λ (e, k). true_not_false e free)
          | inl bound ↦ elim (Bool-cases (has_field p fields attr)) [
            | inl carried ↦ inl (rw (bound, carried) refl, λ (e, k). k (there carried))
            | inr absent ↦
                inr (rw (bound, absent) refl, (bound, λ k. true_not_false (back k) absent))
          ]
        ]

    missing_attrs-cases :
        (raw : String)
        → ((missing_attrs p c raw ≡ []) × (¬ LacksAny raw))
          ⊎ ((m : String) × (ms : List String) × (missing_attrs p c raw ≡ m ∷ ms) × LacksAny raw)
    unfolding missing_attrs
    missing_attrs-cases raw =
        let secure =
          missing_attr-cases raw c.require_secure "secure" "Secure" (differs "secure" refl) in
        let http_only =
          missing_attr-cases raw c.require_http_only "httponly" "HttpOnly"
            (differs "httponly" refl) in
        let same_site =
          missing_attr-cases raw c.require_same_site "samesite" "SameSite"
            (differs "samesite" refl) in
        let b = missing_attr p c raw c.require_http_only "httponly" "HttpOnly" in
        let d = missing_attr p c raw c.require_same_site "samesite" "SameSite" in
        elim secure [
          | inr (e, l) ↦ inr ("Secure", append b d, rw e refl, inl l)
          | inl (e, k) ↦ elim http_only [
            | inr (e', l) ↦ inr ("HttpOnly", d, rw (e, e') refl, inr (inl l))
            | inl (e', k') ↦ elim same_site [
              | inr (e'', l) ↦ inr ("SameSite", [], rw (e, e', e'') refl, inr (inr l))
              | inl (e'', k'') ↦ inl (
                rw (e, e', e'') refl,
                λ l. elim l [ inl x ↦ k x | inr (inl y) ↦ k' y | inr (inr z) ↦ k'' z ],
              )
            ]
          ]
        ]

    -- The value is too long, or empty.
    abbrev IsBadValue : String → Type 0
    IsBadValue value = IsOverlong value ⊎ ((c.require_non_empty ≡ true) × (value ≡ ""))

    check_value_iff :
        (cookie value : String)
        → ((check_value p c cookie value).detected ≡ true) ↔ IsBadValue value
    unfolding check_value report
    check_value_iff cookie value =
        let (there, back) =
          and_iff (lt_ℤ (pos 0) c.max_value_len) (lt_ℤ c.max_value_len (pos (size value))) in
        let (there', back') = and_iff c.require_non_empty (value == "") in
        elim (Bool-cases
          (lt_ℤ (pos 0) c.max_value_len && lt_ℤ c.max_value_len (pos (size value)))) [
            | inl long ↦ (λ h. inl (there long), λ h. rw long refl)
            | inr short ↦ elim (Bool-cases (c.require_non_empty && (value == ""))) [
              | inl empty ↦
                  let (needed, none_given) = there' empty in
                  (λ h. inr (needed, (eq_iff value "").0 none_given), λ h. rw (short, empty) refl)
              | inr good ↦ (
                λ h. absurd (true_not_false h (rw (short, good) refl)),
                λ h. elim h [
                  | inl long ↦ absurd (true_not_false (back long) short)
                  | inr (needed, e) ↦
                      absurd (true_not_false (back' (needed, (eq_iff value "").1 e)) good)
                ],
              )
            ]
          ]

    check_iff :
        (raw cookie value : String)
        → ((check p c raw cookie value).detected ≡ true) ↔ IsInsecure raw value
    unfolding check report
    check_iff raw cookie value = elim (missing_attrs-cases raw) [
      | inr (m, ms, e, l) ↦ (λ h. inl l, λ h. rw (e, check) refl)
      | inl (e, k) ↦
          let (there, back) = check_value_iff cookie value in
          rw (e, check)
            (λ h. inr (there h), λ h. elim h [ inl l ↦ absurd (k l) | inr bad ↦ back bad ])
    ]

    -- What the header is parsed to is insecure.
    abbrev pub IsReported : String → Type 0
    IsReported raw =
        (cookie : String) × (value : String) × (p.parse_set_cookie raw ≡ some (cookie, value))
        × IsInsecure raw value

    detect_raw_iff : (raw : String) → ((detect_raw p c raw).detected ≡ true) ↔ IsReported raw
    unfolding detect_raw
    detect_raw_iff raw = elim (Option-cases (p.parse_set_cookie raw)) [
      | inl bad ↦ (
        λ d. absurd (true_not_false d (rw (bad, detect_raw) refl)),
        λ (cookie, value, q, l). absurd (none_not_some (sym bad ∙ q)),
      )
      | inr ((cookie, value), q) ↦
          let (there, back) = check_iff raw cookie value in
          (
            λ d. (cookie, value, q, there (rw (q, detect_raw) at d)),
            λ (cookie', value', q', l). rw (q', detect_raw) ((check_iff raw cookie' value').1 l),
          )
    ]

    -- With more fuel than the header has bytes, the detector gives a result. It is a detection exactly if
    -- what is left of the header after the prefixes is parsed to a cookie that is insecure: a required
    -- attribute is in no field after the first, in either form, or the value is longer than a limit above
    -- 0, or a value is required and it is empty. `strings.TrimSpace` and `strings.ToLower` are as documented.
    pub detect-insecure_iff :
        (laws : Laws p) (fuel : ℕ) (input : String)
        → size (p.trim_space input) < fuel
        → (raw : String) × (r : Result) × (strip_cookie_prefix p fuel (p.trim_space input)
            ≡ some raw)
          × (detect p c fuel input ≡ some r)
          × ((r.detected ≡ true) ↔ IsReported raw)
    unfolding detect
    detect-insecure_iff laws fuel input h =
        let (raw, e, bare, clear) = strip_cookie_prefix-total p laws fuel (p.trim_space input) h in
        (raw, detect_raw p c raw, e, rw (e, detect) refl, detect_raw_iff raw)
