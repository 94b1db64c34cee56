-- ===== src/Httpval/Method.antt =====
-- httpval/method.go: the detector `http_method`.
use Prim.Native.String.{◌++◌}
use security_go.Shared.{Bool, true, String, List, [], ◌∷◌, if◌then◌else◌}
use security_go.Shared.Assoc.{lookup}
use security_go.Security.{Result, clean, low}
use security_go.Httpval.Flags.{flag}

abbrev pub allowed_methods : List (String × Bool)
allowed_methods =
    ("GET", true)
    ∷ ("POST", true)
    ∷ ("PUT", true)
    ∷ ("DELETE", true)
    ∷ ("HEAD", true)
    ∷ ("OPTIONS", true)
    ∷ ("PATCH", true)
    ∷ []

abbrev pub name : String
name = "http_method"

unfoldable pub detect : String → Result
detect input = if flag (lookup input allowed_methods) then clean name else record {
  name = name;
  detected = true;
  message = "Invalid HTTP method: " ++ input;
  severity = low;
  details = [];
}
