-- ===== src/Httpval/BodySize.antt =====
-- httpval/body_size.go: the detector `body_size`.
use security_go.Shared.{ℕ, ◌*◌, true, String, [], Option, none, some, if◌then◌else◌}
use security_go.Shared.Int.{ℤ, pos, positive_or, lt_ℤ}
use security_go.Security.{Result, clean, low}

pub record BodySize : Type 0 where
  pub max_size : ℤ

abbrev pub default_max_size : ℕ
default_max_size = 10 * 1024 * 1024

unfoldable pub new_body_size : ℤ → BodySize
new_body_size max_size = record { max_size = pos (positive_or max_size default_max_size) }

abbrev pub name : String
name = "body_size"

unfoldable pub check_size : BodySize → Option ℤ → Result
check_size b none = clean name
check_size b (some size) =
    if lt_ℤ b.max_size size
    then record {
      name = name;
      detected = true;
      message = "Request body exceeds maximum size";
      severity = low;
      details = [];
    }
    else clean name

-- `parse_int` is `strconv.ParseInt(…, 10, 64)`, with `none` on an error.
unfoldable pub detect : (parse_int : String → Option ℤ) → BodySize → String → Result
unfolding check_size
detect parse_int b input = check_size b (parse_int input)
