-- ===== src/Httpval/Tests.antt =====
-- httpval/: an example of the checks of the method, the size, the media type and the origin.
use text.Mathlib.Text.{◌==◌}
use security_go.Shared.{
  ◌≡◌, ◌↔◌, ◌⊎◌, false, String, [], ◌∷◌, Option, some, none, In, if◌then◌else◌,
}
use security_go.Shared.Int.{ℤ, pos}
use security_go.Httpval.Method.{detect as detect_method}
use security_go.Httpval.BodySize.{new_body_size, detect as detect_size}
use security_go.Httpval.ContentType.{new_content_type, detect as detect_type}
use security_go.Httpval.CsrfOrigin.{CsrfOrigin, detect as detect_origin}
use security_go.Httpval.Admission.{methods, Admits, IsSmall, IsHost, detect-admits_iff}

abbrev input : String
input = "7"

abbrev parse_int : String → Option ℤ
parse_int s = if s == "7" then some (pos 7) else none

abbrev identity : String → Option String
identity s = some s

abbrev site : CsrfOrigin
site = record { host = "site"; allow_list = "shop" ∷ [] }

detect-admits_iff_example :
    (((detect_method input).detected ≡ false) ↔ In input methods)
    × (((detect_size parse_int (new_body_size (pos 5)) input).detected ≡ false)
        ↔ Admits (parse_int input) (IsSmall (pos 5)))
    × (((detect_type identity (new_content_type ("text/html" ∷ [])) input).detected ≡ false)
        ↔ Admits (identity input) (λ mt. In mt ("text/html" ∷ [])))
    × (((detect_origin ◌==◌ identity site input).detected ≡ false)
        ↔ ((input ≡ "") ⊎ Admits (identity input) (IsHost ◌==◌ ("site" ∷ "shop" ∷ []))))
detect-admits_iff_example =
    detect-admits_iff parse_int identity identity ◌==◌ (pos 5) ("text/html" ∷ []) site input
