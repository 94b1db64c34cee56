-- ===== src/Pet/Expression.antt =====
-- pet/expression.go, and the artwork and the handlers of pet/pet.go and pet/mood.go.
--
-- `embed` is the content of a file of pet/ that is embedded. Package path and `strings.TrimSuffix` are
-- arguments of the handler. A handler is what it does to the response: package net/http writes it.
pub mod Slugs
pub mod Serving
mod Tests
use Prim.Native.String.{◌++◌}
use text.Mathlib.Text.{◌==◌}
use security_go.Shared.{
  ℕ, zero, suc, ◌+◌, Bool, true, false, String, List, [], ◌∷◌, Option, none, some, length,
  if◌then◌else◌,
}
use security_go.Shared.Int.{ℤ, pos, negsuc}
use security_go.Pet.Mood.{Mood, calm, watchful, alarmed}

-- A Go int, of which twelve values are named.
abbrev pub Expression : Type 0
Expression = ℤ

abbrev pub smile : Expression
smile = pos 0

abbrev pub joy : Expression
joy = pos 1

abbrev pub cry : Expression
cry = pos 2

abbrev pub depressed : Expression
depressed = pos 3

abbrev pub terrified : Expression
terrified = pos 4

abbrev pub angry : Expression
angry = pos 5

abbrev pub coquettish : Expression
coquettish = pos 6

abbrev pub cute : Expression
cute = pos 7

abbrev pub pleasing : Expression
pleasing = pos 8

abbrev pub knocking : Expression
knocking = pos 9

abbrev pub facepalm : Expression
facepalm = pos 10

abbrev pub tongue : Expression
tongue = pos 11

-- Either `http.NotFound`, or `http.ServeContent` with two headers, a name and a content.
pub data Response : Type 0 where
  not_found : Response
  served : (content_type cache_control name content : String) → Response

abbrev pub svg_type : String
svg_type = "image/svg+xml; charset=utf-8"

abbrev pub cacheable : String
cacheable = "public, max-age=86400"

-- `xs[n]`
unfoldable pub nth {ℓ} : {A : Type ℓ} → List A → ℕ → Option A
nth [] n = none
nth (x ∷ xs) zero = some x
nth (x ∷ xs) (suc n) = nth xs n

-- The indices from `i` on, as many as the list has entries.
unfoldable pub indices : List (String × String) → ℕ → List Expression
indices [] i = []
indices (a ∷ arts) i = pos i ∷ indices arts (i + 1)

-- The loop of `ExpressionOf`, from the index `i` on.
unfoldable pub search : String → ℕ → List (String × String) → Expression × Bool
search name i [] = (smile, false)
search name i ((slug, svg) ∷ arts) =
    let later = search name (i + 1) arts in if slug == name then (pos i, true) else later

module _ (embed : String → String) where
  unfoldable pub expression_arts : List (String × String)
  expression_arts =
      ("smile", embed "expressions/smile.svg")
      ∷ ("joy", embed "expressions/joy.svg")
      ∷ ("cry", embed "expressions/cry.svg")
      ∷ ("depressed", embed "expressions/depressed.svg")
      ∷ ("terrified", embed "expressions/terrified.svg")
      ∷ ("angry", embed "expressions/angry.svg")
      ∷ ("coquettish", embed "expressions/coquettish.svg")
      ∷ ("cute", embed "expressions/cute.svg")
      ∷ ("pleasing", embed "expressions/pleasing.svg")
      ∷ ("knocking", embed "expressions/knocking.svg")
      ∷ ("facepalm", embed "expressions/facepalm.svg")
      ∷ ("tongue", embed "expressions/tongue.svg")
      ∷ []

  -- The entry of an expression that is in range.
  unfoldable pub art : Expression → Option (String × String)
  unfolding expression_arts nth
  art (negsuc n) = none
  art (pos n) = nth expression_arts n

  unfoldable pub expressions : List Expression
  unfolding expression_arts indices
  expressions = indices expression_arts 0

  unfoldable pub string : Expression → String
  unfolding art
  string e = elim (art e) [ none ↦ "unknown" | some a ↦ a.0 ]

  unfoldable pub expression_of : String → Expression × Bool
  unfolding expression_arts search
  expression_of name = search name 0 expression_arts

  unfoldable pub svg_for_expression : Expression → String
  unfolding art
  svg_for_expression e = elim (art e) [ none ↦ embed "expressions/smile.svg" | some a ↦ a.1 ]

  unfoldable pub expression_handler :
      (base : String → String) (trim_suffix : String → String → String) → String → Response
  unfolding expression_of string svg_for_expression
  expression_handler base trim_suffix url_path =
      let found = expression_of (trim_suffix (base url_path) ".svg") in
      if found.1
      then served svg_type cacheable (string found.0 ++ ".svg") (svg_for_expression found.0)
      else not_found

  -- pet/pet.go
  abbrev pub svg : String
  svg = embed "pet.svg"

  unfoldable pub handler : Response
  handler = served svg_type cacheable "pet.svg" svg

  -- pet/mood.go
  unfoldable pub svg_for : Mood → String
  svg_for watchful = embed "mood-watchful.svg"
  svg_for alarmed = embed "mood-alarmed.svg"
  svg_for calm = svg

  unfoldable pub mood_handler : {Request : Type 0} → (Request → Mood) → Request → Response
  unfolding svg_for
  mood_handler mood_for r = served svg_type "no-store" "pet.svg" (svg_for (mood_for r))

-- pet/pet.go: a line of the banner is a text with its newline.
abbrev banner : String
banner =
    "        .--------.\n"
    ++ ("      .'  .--.    '.        哨兵鼠 · Sentinel Gopher\n"
        ++ ("     /   /    \\     \\       ------------------------\n"
            ++ ("    |   | o  o |     |      security-go — 36 detectors\n"
                ++ ("    |   |  __  |     |      Detect · DetectAll · DetectRequest\n"
                    ++ ("     \\   \\ '--' /    /      Tracker · Signer · IPBlacklist\n"
                        ++ ("      '.  '----'  .'\n" ++ ("        '--------'\n")))))))
