-- ===== src/Httpval/CookieAttrs.antt =====
-- httpval/cookie_attrs.go: the detector `cookie_attrs` of a `Set-Cookie` header.
--
-- A text is its bytes here, the character with the code of each. The loop of `stripCookiePrefix` runs on
-- fuel.
pub mod Stripping
pub mod Attributes
mod Tests
use Prim.Native.String.{◌++◌}
use text.Mathlib.Text.{◌==◌, starts_with}
use security_go.Shared.{
  ℕ, zero, suc, ◌+◌, Bool, true, false, not, ◌&&◌, ◌||◌, String, List, [], ◌∷◌, Option, none, some,
  if◌then◌else◌,
}
use security_go.Shared.Int.{ℤ, pos, lt_ℤ}
use mathlib.Core.List.{◌++◌ as append}
use security_go.Shared.{drop}
use security_go.Shared.Text.{split, size, slice_from}
use security_go.Security.{Result, Detail, clean, medium, high, str, strs, number}

-- Packages strings, strconv and net/http: `parse_set_cookie` gives the name and the value of the cookie,
-- `none` if there is none.
pub record Packages : Type 0 where
  pub trim_space : String → String
  pub to_lower : String → String
  pub itoa : ℤ → String
  pub parse_set_cookie : String → Option (String × String)

pub record CookieAttrs : Type 0 where
  pub require_secure : Bool
  pub require_http_only : Bool
  pub require_same_site : Bool
  pub max_value_len : ℤ
  pub require_non_empty : Bool

unfoldable pub new_cookie_attrs : Bool → Bool → Bool → CookieAttrs
new_cookie_attrs secure http_only same_site = record {
  require_secure = secure;
  require_http_only = http_only;
  require_same_site = same_site;
  max_value_len = pos 0;
  require_non_empty = false;
}

abbrev pub name : String
name = "cookie_attrs"

abbrev pub prefix : String
prefix = "set-cookie:"

-- `strings.Join`
unfoldable pub join : List String → String → String
join [] sep = ""
join (s ∷ []) sep = s
join (s ∷ t ∷ ss) sep = s ++ (sep ++ join (t ∷ ss) sep)

unfoldable pub report : String → List (String × Detail) → Bool → Result
report message details is_high = record {
  name = name;
  detected = true;
  message = message;
  severity = if is_high then high else medium;
  details = details;
}

module _ (p : Packages) where
  -- `none` if the fuel is out, or if a slice is out of range.
  unfoldable pub strip_cookie_prefix : ℕ → String → Option String
  strip_cookie_prefix zero input = none
  strip_cookie_prefix (suc fuel) input =
      let rest = p.trim_space input in
      let again : Option String = elim (slice_from 11 rest) [
        | none ↦ none
        | some input' ↦ strip_cookie_prefix fuel input'
      ] in
      if not (starts_with (p.to_lower rest) prefix) then some rest else again

  -- The loop over the fields after the first.
  unfoldable pub has_field : List String → String → Bool
  has_field [] attr = false
  has_field (field ∷ fields) attr =
      let f = p.to_lower (p.trim_space field) in
      let later = has_field fields attr in
      if f == "" then later else if (f == attr) || starts_with f (attr ++ "=") then true else later

  unfoldable pub has_attr : String → String → Bool
  unfolding has_field split
  has_attr raw attr = has_field (drop 1 (split b';' raw)) attr

  module _ (c : CookieAttrs) where
    -- The display name, if the attribute is required and absent.
    unfoldable pub missing_attr : String → Bool → String → String → List String
    unfolding has_attr
    missing_attr raw required attr display =
        if required && not (has_attr raw attr) then display ∷ [] else []

    unfoldable pub missing_attrs : String → List String
    unfolding missing_attr
    missing_attrs raw = append (missing_attr raw c.require_secure "secure" "Secure") (
        append (missing_attr raw c.require_http_only "httponly" "HttpOnly")
          (missing_attr raw c.require_same_site "samesite" "SameSite"))

    -- The checks of the value.
    unfoldable pub check_value : String → String → Result
    unfolding report
    check_value cookie value =
        if lt_ℤ (pos 0) c.max_value_len && lt_ℤ c.max_value_len (pos (size value))
        then report ("Set-Cookie value exceeds " ++ (p.itoa c.max_value_len ++ " bytes"))
            (("cookie", str cookie)
              ∷ ("length", number (pos (size value)))
              ∷ ("max_length", number c.max_value_len)
              ∷ [])
            true
        else if c.require_non_empty && (value == "")
        then report "Set-Cookie has an empty value" (("cookie", str cookie) ∷ []) false
        else clean name

    unfoldable pub check : String → String → String → Result
    unfolding missing_attrs join report check_value
    check raw cookie value = elim (missing_attrs raw) [
      | m ∷ ms ↦
          report ("Set-Cookie missing attributes: " ++ join (m ∷ ms) ", ")
            (("cookie", str cookie) ∷ ("missing", strs (m ∷ ms)) ∷ []) false
      | [] ↦ check_value cookie value
    ]

    unfoldable pub detect_raw : String → Result
    unfolding check
    detect_raw raw = elim (p.parse_set_cookie raw) [
      | none ↦ clean name
      | some (cookie, value) ↦ check raw cookie value
    ]

    unfoldable pub detect : ℕ → String → Option Result
    unfolding detect_raw strip_cookie_prefix
    detect fuel input = elim (strip_cookie_prefix fuel (p.trim_space input)) [
      | none ↦ none
      | some raw ↦ some (detect_raw raw)
    ]
