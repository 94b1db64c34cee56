-- ===== src/Httpval/CookieAttrs/Tests.antt =====
-- httpval/cookie_attrs.go: an example of the packages, and examples of the theorems.
use Prim.Native.Char.{Char, code}
use Prim.Native.String.{◌++◌, [] as eps, ◌∷◌ as cons}
use text.Mathlib.Text.{◌==◌ as str_eq, starts_with}
use text.Mathlib.TextEquality.{starts_with_iff}
use text.Mathlib.TextLemmas.{cons-append}
use security_go.Shared.{
  ◌+◌, ◌≤◌, ◌≡◌, ◌↔◌, refl, ap, inl, inr, true, false, String, some, none, arith, ◌==◌, Bool-cases,
  if◌then◌else◌,
}
use security_go.Shared.Text.{size, slice_from}
use security_go.Security.{Result}
use security_go.Httpval.CookieAttrs.{
  Packages, CookieAttrs, new_cookie_attrs, prefix, strip_cookie_prefix, detect,
}
use security_go.Httpval.CookieAttrs.Stripping.{Laws, strip_cookie_prefix-total}
use security_go.Httpval.CookieAttrs.Attributes.{IsReported, detect-insecure_iff}

-- The spaces in front go.
trim : String → String
trim eps = eps
trim (cons c s) = let rest = trim s in if code c == b' ' then rest else cons c s

trim-size : (s : String) → size (trim s) ≤ size s
unfolding trim size
trim-size eps = omega arith
trim-size (cons c s) =
    let rest = trim-size s in
    elim (Bool-cases (code c == b' ')) [
      | inl space ↦ rw space (omega arith)
      | inr other ↦ rw other (omega arith)
    ]

trim-trim : (s : String) → trim (trim s) ≡ trim s
unfolding trim
trim-trim eps = refl
trim-trim (cons c s) = elim (Bool-cases (code c == b' ')) [
  | inl space ↦ rw space (trim-trim s)
  | inr other ↦ rw (other, other) refl
]

-- Of the capitals only S has a small letter.
abbrev small : Char → Char
small c = if code c == b'S' then "s" else c

lower : String → String
lower eps = eps
lower (cons c s) = cons (small c) (lower s)

lower-size : (s : String) → size (lower s) ≡ size s
unfolding lower size
lower-size eps = refl
lower-size (cons c s) = ap (λ n. n + 1) (lower-size s)

size-append : (s t : String) → size s ≤ size (s ++ t)
unfolding size
size-append eps t = omega arith
size-append (cons c s) t = rw (cons-append c s t) (omega (arith, size-append s t))

prefix-size : (s t : String) → starts_with s t ≡ true → size t ≤ size s
prefix-size s t h = let (u, e) = (starts_with_iff s t).0 h in rw (← e) (size-append t u)

unfoldable packages : Packages
packages = record {
  trim_space = trim;
  to_lower = lower;
  itoa = λ n. "";
  parse_set_cookie = λ s. if str_eq s "" then none else some ("a", "1");
}

laws : Laws packages
unfolding packages
laws = record {
  trim_space-size = trim-size;
  trim_space-trim_space = trim-trim;
  to_lower-size = λ s t ascii h. rw (← lower-size s) (prefix-size (lower s) t h);
}

abbrev header : String
header = "Set-cookie: set-cookie:a=1; Secure"

strip_cookie_prefix-total_example :
    (rest : String) × (strip_cookie_prefix packages 40 header ≡ some rest)
    × (starts_with (packages.to_lower rest) prefix ≡ false)
    × (packages.trim_space rest ≡ rest)
unfolding size
strip_cookie_prefix-total_example = strip_cookie_prefix-total packages laws 40 header (omega arith)

stripped : strip_cookie_prefix packages 40 header ≡ some "a=1; Secure"
unfolding packages strip_cookie_prefix trim lower slice_from
stripped = refl

abbrev attrs : CookieAttrs
attrs = new_cookie_attrs true true false

detect-insecure_iff_example :
    (raw : String) × (r : Result) × (strip_cookie_prefix packages 40 (packages.trim_space header)
      ≡ some raw)
    × (detect packages attrs 40 header ≡ some r)
    × ((r.detected ≡ true) ↔ IsReported packages attrs raw)
unfolding size packages trim
detect-insecure_iff_example = detect-insecure_iff packages attrs laws 40 header (omega arith)
