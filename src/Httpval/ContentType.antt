-- ===== src/Httpval/ContentType.antt =====
-- httpval/content_type.go: the detector `content_type`.
use Prim.Native.String.{◌++◌}
use security_go.Shared.{Bool, true, String, List, [], Option, none, some, if◌then◌else◌}
use security_go.Shared.Assoc.{lookup}
use security_go.Security.{Result, clean, low}
use security_go.Httpval.Flags.{flag, mark_all}

pub record ContentType : Type 0 where
  pub allowed : List (String × Bool)

unfoldable pub new_content_type : List String → ContentType
unfolding mark_all
new_content_type allowed = record { allowed = mark_all allowed [] }

abbrev pub name : String
name = "content_type"

unfoldable pub check_type : ContentType → Option String → Result
check_type c none = clean name
check_type c (some mt) = if flag (lookup mt c.allowed) then clean name else record {
  name = name;
  detected = true;
  message = "Content-Type not allowed: " ++ mt;
  severity = low;
  details = [];
}

-- `parse_media_type` is the media type that `mime.ParseMediaType` gives, `none` on an error.
unfoldable pub detect : (parse_media_type : String → Option String) → ContentType → String → Result
unfolding check_type
detect parse_media_type c input = check_type c (parse_media_type input)
