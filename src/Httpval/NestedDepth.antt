-- ===== src/Httpval/NestedDepth.antt =====
-- httpval/nested_depth.go: the detector `nested_depth` of JSON body bombs.
--
-- Packages encoding/json and strconv are arguments: `tokens` gives the tokens that the decoder reads
-- from a text before it returns an error, and the end of the text is one.
pub mod Document
pub mod Limits
mod Tests
use Prim.Native.String.{◌++◌}
use text.Mathlib.Text.{◌==◌}
use security_go.Shared.{ℕ, ◌+◌, Bool, true, ◌&&◌, String, List, [], ◌∷◌, if◌then◌else◌}
use security_go.Shared.Int.{ℤ, pos, positive_or, suc_ℤ, pred_ℤ, lt_ℤ}
use security_go.Security.{Result, clean, high, str, number}

-- A delimiter, or any other token: a key of an object, or a value that is no array or object.
pub data Token : Type 0 where
  open_brace open_bracket close_brace close_bracket element : Token

pub record NestedDepth : Type 0 where
  pub max_depth : ℤ
  pub max_keys : ℤ

abbrev pub default_max_depth : ℕ
default_max_depth = 32

unfoldable pub new_nested_depth : ℤ → ℤ → NestedDepth
new_nested_depth max_depth max_keys = record {
  max_depth = pos (positive_or max_depth default_max_depth);
  max_keys = max_keys;
}

abbrev pub name : String
name = "nested_depth"

module _ (itoa : ℤ → String) (d : NestedDepth) where
  unfoldable pub bomb : String → String → ℤ → ℤ → Result
  bomb reason message depth keys = record {
    name = name;
    detected = true;
    message = message;
    severity = high;
    details =
        ("reason", str reason)
        ∷ ("depth", number depth)
        ∷ ("keys", number keys)
        ∷ ("max_depth", number d.max_depth)
        ∷ ("max_keys", number d.max_keys)
        ∷ [];
  }

  unfoldable pub too_deep : ℤ → ℤ → Result
  unfolding bomb
  too_deep depth keys =
      bomb "depth" ("JSON body bomb: nesting depth " ++ (itoa depth ++ ("/" ++ itoa d.max_depth)))
        depth keys

  unfoldable pub too_many : ℤ → ℤ → Result
  unfolding bomb
  too_many depth keys =
      bomb "keys" ("JSON body bomb: element count " ++ (itoa keys ++ ("/" ++ itoa d.max_keys)))
        depth keys

  -- The loop, with the depth and the number of elements so far.
  unfoldable pub scan : ℤ → ℤ → List Token → Result
  unfolding too_deep too_many
  scan depth keys [] = clean name
  scan depth keys (Token.open_brace ∷ ts) =
      let rest = scan (suc_ℤ depth) keys ts in
      if lt_ℤ d.max_depth (suc_ℤ depth) then too_deep (suc_ℤ depth) keys else rest
  scan depth keys (Token.open_bracket ∷ ts) =
      let rest = scan (suc_ℤ depth) keys ts in
      if lt_ℤ d.max_depth (suc_ℤ depth) then too_deep (suc_ℤ depth) keys else rest
  scan depth keys (Token.close_brace ∷ ts) = scan (pred_ℤ depth) keys ts
  scan depth keys (Token.close_bracket ∷ ts) = scan (pred_ℤ depth) keys ts
  scan depth keys (Token.element ∷ ts) =
      let rest = scan depth (suc_ℤ keys) ts in
      if lt_ℤ (pos 0) d.max_keys && lt_ℤ d.max_keys (suc_ℤ keys)
      then too_many depth (suc_ℤ keys)
      else rest

  unfoldable pub detect : (tokens : String → List Token) → String → Result
  unfolding scan
  detect tokens input = if input == "" then clean name else scan (pos 0) (pos 0) (tokens input)
