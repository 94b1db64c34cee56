-- ===== src/Httpval/CsrfOrigin.antt =====
-- httpval/csrf_origin.go: the detector `csrf_origin`.
use Prim.Native.String.{◌++◌}
use text.Mathlib.Text.{◌==◌}
use security_go.Shared.{Bool, true, String, List, [], ◌∷◌, Option, none, some, if◌then◌else◌}
use security_go.Security.{Result, clean, medium}

pub record CsrfOrigin : Type 0 where
  pub host : String
  pub allow_list : List String

abbrev pub name : String
name = "csrf_origin"

unfoldable pub mismatch : String → Result
mismatch host = record {
  name = name;
  detected = true;
  message = "CSRF origin mismatch: " ++ host;
  severity = medium;
  details = [];
}

-- `equal_fold` is `strings.EqualFold`; `parse_host` is the host of `url.Parse`, `none` on an error.
module _ (equal_fold : String → String → Bool) (parse_host : String → Option String) where
  -- The loop over the allowed hosts.
  unfoldable pub check_allowed : String → List String → Result
  unfolding mismatch
  check_allowed host [] = mismatch host
  check_allowed host (allowed ∷ rest) =
      let later = check_allowed host rest in if equal_fold host allowed then clean name else later

  unfoldable pub check_host : CsrfOrigin → Option String → Result
  unfolding check_allowed
  check_host c none = clean name
  check_host c (some host) =
      if equal_fold host c.host then clean name else check_allowed host c.allow_list

  unfoldable pub detect : CsrfOrigin → String → Result
  unfolding check_host
  detect c input = if input == "" then clean name else check_host c (parse_host input)
