-- ===== src/Data/JwtAttack.antt =====
-- data/jwt_attack.go: the detector `jwt_attack`.
--
-- Packages regexp, strings, encoding/base64 and encoding/json are arguments.
use security_go.Shared.{
  String, List, [], ◌∷◌, Bool, true, false, ◌||◌, not, Option, some, none, if◌then◌else◌,
}
use security_go.Shared.Assoc.{lookup}
use security_go.Security.{Result, Regexp, clean, critical, str}
use text.Mathlib.Text.{◌==◌ as str_eq}

abbrev pub name : String
name = "jwt_attack"

abbrev pub jwt_token_pattern : String
jwt_token_pattern = "[A-Za-z0-9_-]+={0,2}\\.[A-Za-z0-9_-]+={0,2}\\.[A-Za-z0-9_-]*={0,2}"

-- `unmarshal` gives the entries of a JSON object: `some` for a text, `none` for any other value.
pub record Packages : Type 0 where
  pub trim_space : String → String
  pub split_dots : String → List String
  pub trim_equals : String → String
  pub decode_url : String → Option String
  pub unmarshal : String → Option (List (String × Option String))
  pub equal_fold : String → String → Bool
  pub contains : String → String → Bool

-- The object of the header.
abbrev pub Header : Type 0
Header = List (String × Option String)

-- `header[key].(string)`
unfoldable pub text_at : String → Header → Option String
unfolding lookup
text_at key header = elim (lookup key header) [ some v ↦ v | none ↦ none ]

-- `v, ok := …; ok && test(v)`, with the text for the report.
unfoldable pub filter : (String → Bool) → Option String → Option String
filter test none = none
filter test (some v) = if test v then some v else none

abbrev pub alg_none : String → Result
alg_none alg = record {
  name = name;
  detected = true;
  message = "JWT token uses alg=none, allowing signature bypass";
  severity = critical;
  details = ("reason", str "alg_none") ∷ ("alg", str alg) ∷ [];
}

abbrev pub kid_path_traversal : String → Result
kid_path_traversal kid = record {
  name = name;
  detected = true;
  message = "JWT kid contains path traversal sequence";
  severity = critical;
  details = ("reason", str "kid_path_traversal") ∷ ("kid", str kid) ∷ [];
}

abbrev pub empty_signature : Result
empty_signature = record {
  name = name;
  detected = true;
  message = "JWT token has three parts but empty signature";
  severity = critical;
  details = ("reason", str "empty_signature") ∷ [];
}

-- `len(parts) == 3 && parts[2] == ""`
unfoldable pub is_unsigned : List String → Bool
is_unsigned [] = false
is_unsigned (p ∷ []) = false
is_unsigned (p ∷ q ∷ []) = false
is_unsigned (p ∷ q ∷ s ∷ []) = str_eq s ""
is_unsigned (p ∷ q ∷ s ∷ r ∷ rest) = false

module _ (pk : Packages) where
  -- The check of the header's `alg`, of its `kid` and of the parts, in this order.
  unfoldable pub check_header : Header → List String → Result
  unfolding text_at filter
  check_header header parts =
      elim (filter (λ alg. pk.equal_fold alg "none") (text_at "alg" header)) [
        | some alg ↦ alg_none alg
        | none ↦
            elim (filter (λ kid. pk.contains kid "../" || pk.contains kid "..\\")
              (text_at "kid" header)) [
                | some kid ↦ kid_path_traversal kid
                | none ↦ if is_unsigned parts then empty_signature else clean name
              ]
      ]

  -- The object that the first part encodes, unless the decoding fails.
  unfoldable pub read_header : String → Option Header
  read_header part = elim (pk.decode_url (pk.trim_equals part)) [
    | some json ↦ pk.unmarshal json
    | none ↦ none
  ]

  -- With less than two parts, or without a header, there is nothing to report.
  unfoldable pub check_parts : List String → Result
  unfolding check_header read_header
  check_parts [] = clean name
  check_parts (p ∷ []) = clean name
  check_parts (p ∷ q ∷ rest) = elim (read_header p) [
    | some header ↦ check_header header (p ∷ q ∷ rest)
    | none ↦ clean name
  ]

  -- The token in the input, or else the whole input.
  unfoldable pub token_of : Regexp → String → String
  token_of rx input =
      let token = rx.find_string jwt_token_pattern input in
      if not (str_eq token "") then token else input

  unfoldable pub detect : Regexp → String → Result
  unfolding check_parts token_of
  detect rx input = check_parts (pk.split_dots (pk.trim_space (token_of rx input)))
