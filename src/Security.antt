-- ===== src/Security.antt =====
-- security.go: severities, detection results, detectors and the engine that runs them.
pub mod Patterns
pub mod Grading
pub mod Engine
use security_go.Shared.{Bool, true, false, String, List, [], ◌∷◌, Option}
use security_go.Shared.Int.{ℤ}

pub data Severity : Type 0 where
  low medium high critical : Severity

-- What the detectors store in `Details map[string]interface{}`.
pub data Detail : Type 0 where
  str : String → Detail
  number : ℤ → Detail
  strs : List String → Detail

-- `severity` of a result that is not detected is the zero value, `low`.
pub record Result : Type 0 where
  pub name : String
  pub detected : Bool
  pub message : String
  pub severity : Severity
  pub details : List (String × Detail)

-- `&security.Result{Name: name, Detected: false}`
abbrev pub clean : String → Result
clean name = record { name = name; detected = false; message = ""; severity = low; details = [] }

-- A detector by its two methods; `none` is a nil result. `detect` is the method at one moment, with
-- the clock and the storage that it may read fixed.
pub record Detector : Type 0 where
  pub name : String
  pub detect : String → Option Result

-- Package regexp, which is not modelled: whether the pattern with this source matches a text, and
-- the leftmost match (empty if there is none).
pub record Regexp : Type 0 where
  pub match_string : String → String → Bool
  pub find_string : String → String → String
