-- ===== src/Security/Engine.antt =====
-- security.go: the engine.
--
-- The map of detectors is an association list. Go ranges over a map in an order that it does not
-- fix: `order` gives the order of the scan, and the theorems ask only that it lists each entry once.
-- A request is the data that the engine takes from it; packages net/http and net/url are arguments.
pub mod Registry
pub mod Scan
pub mod Inputs
pub mod Requests
pub mod Registering
mod Tests
use security_go.Shared.{
  ℕ, ◌+◌, ◌++◌, Bool, true, false, not, ◌&&◌, String, List, [], ◌∷◌, Option, none, some,
  if◌then◌else◌, map,
}
use security_go.Shared.Assoc.{lookup, insert}
use security_go.Security.{Result, Detector}
use text.Mathlib.Text.{◌==◌}
use Prim.Native.String

pub record Engine : Type 0 where
  pub detectors : List (String × Detector)

unfoldable pub new_engine : Engine
new_engine = record { detectors = [] }

unfoldable pub register : Engine → Detector → Engine
unfolding insert
register e d = record e { detectors = insert d.name d e.detectors }

unfoldable pub detect : Engine → String → String → Option Result
unfolding lookup
detect e name input = elim (lookup name e.detectors) [ some d ↦ d.detect input | none ↦ none ]

-- `if r := …; r != nil && r.Detected { results = append(results, r) }`, before the later results.
unfoldable pub add_hit : Option Result → List Result → List Result
add_hit none rest = rest
add_hit (some r) rest = if r.detected then r ∷ rest else rest

-- The loop of `DetectAll` over the detectors in the order of the scan.
unfoldable pub scan : String → List (String × Detector) → List Result
unfolding add_hit
scan input [] = []
scan input ((name, d) ∷ ds) = add_hit (d.detect input) (scan input ds)

-- An order in which `range` may list the entries of a map.
abbrev pub Order : Type 0
Order = List (String × Detector) → List (String × Detector)

unfoldable pub detect_all : Order → Engine → String → List Result
unfolding scan
detect_all order e input = scan input (order e.detectors)

-- What the engine reads of an `*http.Request`: the URL's text and its re-encoded query, if there is
-- a URL; the headers, in the order of the range; the cookies.
pub record Request : Type 0 where
  pub url : Option (String × String)
  pub header : List (String × List String)
  pub cookies : List (String × String)

unfoldable pub header_inputs : List (String × List String) → List String
header_inputs [] = []
header_inputs ((key, vals) ∷ hs) =
    map (λ v. String.◌++◌ key (String.◌++◌ ": " v)) vals ++ header_inputs hs

unfoldable pub cookie_inputs : List (String × String) → List String
cookie_inputs = map (λ c. String.◌++◌ c.0 (String.◌++◌ "=" c.1))

unfoldable pub url_inputs : Option (String × String) → List String
url_inputs none = []
url_inputs (some (url, query)) = url ∷ query ∷ []

unfoldable pub collect_request_inputs : Option Request → List String
unfolding url_inputs header_inputs cookie_inputs
collect_request_inputs none = []
collect_request_inputs (some r) =
    url_inputs r.url ++ (header_inputs r.header ++ cookie_inputs r.cookies)

-- Each call of `DetectAll` ranges over the map anew: `order n` is the order of the `n`-th scan.
module _ (query_unescape : String → Option String) (order : ℕ → Order) (e : Engine) where
  -- The second scan, of the decoded text where that differs.
  unfoldable pub detect_decoded : ℕ → String → Option String → List Result
  detect_decoded n input none = []
  detect_decoded n input (some dec) = if not (dec == input) then detect_all (order n) e dec else []

  unfoldable pub detect_inputs : ℕ → List String → List Result
  unfolding detect_decoded
  detect_inputs n [] = []
  detect_inputs n (input ∷ inputs) =
      detect_all (order n) e input
      ++ (detect_decoded (n + 1) input (query_unescape input) ++ detect_inputs (n + 2) inputs)

  unfoldable pub detect_request : Option Request → List Result
  unfolding detect_inputs
  detect_request r = detect_inputs 0 (collect_request_inputs r)
