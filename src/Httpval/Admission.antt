-- ===== src/Httpval/Admission.antt =====
-- httpval/method.go, body_size.go, content_type.go and csrf_origin.go: what the checks let through.
use text.Mathlib.Text.{◌==◌}
use security_go.Shared.{
  ◌≡◌, ◌↔◌, ◌⊎◌, refl, sym, inl, inr, Bool, true, false, String, List, [], ◌∷◌, Option, some, none,
  In, Bool-cases, eq_iff, subst, true_not_false,
}
use security_go.Shared.Int.{ℤ, pos, positive_or, lt_ℤ}
use security_go.Shared.Assoc.{lookup, insert}
use security_go.Security.{Result}
use security_go.Httpval.Flags.{flag, mark_all, flag-mark_all-In}
use security_go.Httpval.Method.{detect as detect_method, allowed_methods}
use security_go.Httpval.BodySize.{
  new_body_size, check_size, default_max_size, detect as detect_size,
}
use security_go.Httpval.ContentType.{new_content_type, check_type, detect as detect_type}
use security_go.Httpval.CsrfOrigin.{
  CsrfOrigin, check_allowed, check_host, mismatch, detect as detect_origin,
}

abbrev pub methods : List String
methods = "GET" ∷ "POST" ∷ "PUT" ∷ "DELETE" ∷ "HEAD" ∷ "OPTIONS" ∷ "PATCH" ∷ []

some_not_none : {A : Type 0} {a : A} → ¬ some a ≡ none
some_not_none e = cc

some_injective : {A : Type 0} {a b : A} → some a ≡ some b → a ≡ b
some_injective e = cc

check_method_iff : (input : String) → ((detect_method input).detected ≡ false) ↔ In input methods
unfolding detect_method mark_all insert
check_method_iff input =
    let (there, back) = flag-mark_all-In input methods in
    elim (Bool-cases (flag (lookup input allowed_methods))) [
      | inl set ↦ (λ h. there set, λ h. rw set refl)
      | inr unset ↦ (
        λ h. absurd (true_not_false (rw unset refl) h),
        λ h. absurd (true_not_false (back h) unset),
      )
    ]

-- No value is given, or one with the property.
abbrev pub Admits : {A : Type 0} → Option A → (A → Type 0) → Type 0
Admits {A} o P = (o ≡ none) ⊎ ((a : A) × (o ≡ some a) × P a)

Admits_iff :
    {A : Type 0} (check : Option A → Result) (P : A → Type 0) (o : Option A)
    → (check none).detected ≡ false
    → ((a : A) → ((check (some a)).detected ≡ false) ↔ P a)
    → ((check o).detected ≡ false) ↔ Admits o P
Admits_iff check P none missing given = (λ h. inl refl, λ h. missing)
Admits_iff {A} check P (some a) missing given =
    let (there, back) = given a in
    (
      λ h. inr (a, refl, there h),
      λ h. elim h [
        | inl e ↦ absurd (some_not_none e)
        | inr (b, e, good) ↦ back (subst P (sym (some_injective e)) good)
      ],
    )

abbrev pub IsSmall : ℤ → ℤ → Type 0
IsSmall limit size = lt_ℤ (pos (positive_or limit default_max_size)) size ≡ false

check_size_iff :
    (limit size : ℤ)
    → ((check_size (new_body_size limit) (some size)).detected ≡ false) ↔ IsSmall limit size
unfolding check_size new_body_size
check_size_iff limit size =
    elim (Bool-cases (lt_ℤ (pos (positive_or limit default_max_size)) size)) [
      | inl large ↦ rw (large, check_size) (λ h. h, λ h. h)
      | inr small ↦ rw (small, check_size) (λ h. h, λ h. h)
    ]

check_type_iff :
    (allowed : List String) (mt : String)
    → ((check_type (new_content_type allowed) (some mt)).detected ≡ false) ↔ In mt allowed
unfolding check_type new_content_type
check_type_iff allowed mt =
    let (there, back) = flag-mark_all-In mt allowed in
    elim (Bool-cases (flag (lookup mt (mark_all allowed [])))) [
      | inl set ↦ (λ h. there set, λ h. rw set refl)
      | inr unset ↦ (
        λ h. absurd (true_not_false (rw unset refl) h),
        λ h. absurd (true_not_false (back h) unset),
      )
    ]

module _ (equal_fold : String → String → Bool) where
  -- One of the hosts is the host, in any case of letters.
  abbrev pub IsHost : List String → String → Type 0
  IsHost hosts host = (known : String) × In known hosts × (equal_fold host known ≡ true)

  check_allowed_iff :
      (parse_host : String → Option String) (host : String) (hosts : List String)
      → ((check_allowed equal_fold parse_host host hosts).detected ≡ false) ↔ IsHost hosts host
  unfolding check_allowed mismatch
  check_allowed_iff parse_host host [] = (λ h. cc, λ h. elim h.1 [ ])
  check_allowed_iff parse_host host (known ∷ hosts) =
      let (there, back) = check_allowed_iff parse_host host hosts in
      elim (Bool-cases (equal_fold host known)) [
        | inl same ↦ (λ h. (known, inl refl, same), λ h. rw same refl)
        | inr other ↦ rw other (
          λ h. let (k, at, e) = there h in (k, inr at, e),
          λ (k, at, e). elim at [
            | inl here ↦ absurd (true_not_false e (rw (← here) other))
            | inr later ↦ back (k, later, e)
          ],
        )
      ]

  check_host_iff :
      (parse_host : String → Option String) (c : CsrfOrigin) (host : String)
      → ((check_host equal_fold parse_host c (some host)).detected ≡ false)
        ↔ IsHost (c.host ∷ c.allow_list) host
  unfolding check_host check_allowed
  check_host_iff parse_host c host = check_allowed_iff parse_host host (c.host ∷ c.allow_list)

  check_origin_iff :
      (parse_host : String → Option String) (c : CsrfOrigin) (input : String)
      → ((detect_origin equal_fold parse_host c input).detected ≡ false)
        ↔ ((input ≡ "") ⊎ Admits (parse_host input) (IsHost (c.host ∷ c.allow_list)))
  unfolding detect_origin
  check_origin_iff parse_host c input =
      let (there, back) =
        Admits_iff (check_host equal_fold parse_host c) (IsHost (c.host ∷ c.allow_list))
          (parse_host input) refl (check_host_iff parse_host c) in
      elim (Bool-cases (input == "")) [
        | inl empty ↦ (λ h. inl ((eq_iff input "").0 empty), λ h. rw empty refl)
        | inr given ↦ rw given (
          λ h. inr (there h),
          λ h. elim h [
            | inl e ↦ absurd (true_not_false ((eq_iff input "").1 e) given)
            | inr good ↦ back good
          ],
        )
      ]

-- The four checks report nothing exactly if: the method is one of the seven, in capitals; the size does
-- not parse, or is within the limit, 10 MB if none above 0 is given; the media type does not parse, or is
-- one of the list; the origin is empty or does not parse, or its host is, in any case of letters, the
-- configured one or one of the list.
pub detect-admits_iff :
    (parse_int : String → Option ℤ) (parse_media_type parse_host : String → Option String)
    (equal_fold : String → String → Bool) (limit : ℤ) (allowed : List String) (c : CsrfOrigin)
    (input : String)
    → (((detect_method input).detected ≡ false) ↔ In input methods)
      × (((detect_size parse_int (new_body_size limit) input).detected ≡ false)
          ↔ Admits (parse_int input) (IsSmall limit))
      × (((detect_type parse_media_type (new_content_type allowed) input).detected ≡ false)
          ↔ Admits (parse_media_type input) (λ mt. In mt allowed))
      × (((detect_origin equal_fold parse_host c input).detected ≡ false)
          ↔ ((input ≡ "") ⊎ Admits (parse_host input) (IsHost equal_fold (c.host ∷ c.allow_list))))
unfolding detect_size detect_type detect_origin
detect-admits_iff parse_int parse_media_type parse_host equal_fold limit allowed c input = (
  check_method_iff input,
  Admits_iff (check_size (new_body_size limit)) (IsSmall limit) (parse_int input) refl
      (check_size_iff limit),
  Admits_iff (check_type (new_content_type allowed)) (λ mt. In mt allowed) (parse_media_type input)
      refl (check_type_iff allowed),
  check_origin_iff equal_fold parse_host c input,
)
