-- ===== src/Security/Engine/Tests.antt =====
-- security.go: examples with two small detectors.
use mathlib.Core.List.{Permᴰ}
use mathlib.Core.List.Permᴰ
use security_go.Shared.{
  ◌≡◌, ◌↔◌, refl, sym, ap, ◌∙◌, subst, inl, inr, true, String, [], ◌∷◌, Option, none, some, In,
  foldl, if◌then◌else◌,
}
use security_go.Security.{Detector, Result, high, clean}
use security_go.Security.Engine.{
  Engine, Order, Request, new_engine, register, detect, detect_all, detect_request,
}
use security_go.Security.Engine.Registry.{
  IsRegistry, new_engine-IsRegistry, register_all-IsRegistry,
}
use security_go.Security.Engine.Scan.{detect_all-iff-detect}
use security_go.Security.Engine.Registering.{IsNamed, detect_all-registered}
use security_go.Security.Engine.Requests.{Scanned, Reports, detect_request_iff}
use text.Mathlib.Text.{◌==◌}

abbrev alarm : String → String → Result
alarm name message = record {
  name = name;
  detected = true;
  message = message;
  severity = high;
  details = [];
}

abbrev finds : String → Detector
finds word = record {
  name = word;
  detect = λ input. some (if input == word then alarm word input else clean word);
}

abbrev two : Engine
two = register (register new_engine (finds "a")) (finds "b")

abbrev as_listed : Order
as_listed ds = ds

abbrev reversed : Order
reversed [] = []
reversed (d ∷ []) = d ∷ []
reversed (d ∷ e ∷ ds) = e ∷ d ∷ ds

two-IsRegistry : IsRegistry two
two-IsRegistry =
    register_all-IsRegistry new_engine (finds "a" ∷ finds "b" ∷ []) new_engine-IsRegistry

named_finds : (d : Detector) → In d (finds "a" ∷ finds "b" ∷ []) → finds d.name ≡ d
named_finds d (inl e) = subst (λ (x : Detector). finds x.name ≡ x) e refl
named_finds d (inr (inl e)) = subst (λ (x : Detector). finds x.name ≡ x) e refl
named_finds d (inr (inr none_left)) = elim none_left [ ]

finds-IsNamed : IsNamed (finds "a" ∷ finds "b" ∷ [])
finds-IsNamed d d' i j e = sym (named_finds d i) ∙ ap finds e ∙ named_finds d' j

detect_all-registered_example :
    Permᴰ
      (detect_all as_listed two "b")
      (detect_all reversed (foldl register new_engine (finds "b" ∷ finds "a" ∷ [])) "b")
unfolding register new_engine
detect_all-registered_example =
    detect_all-registered as_listed reversed (finds "a" ∷ finds "b" ∷ [])
      (finds "b" ∷ finds "a" ∷ []) "b" finds-IsNamed (Permᴰ.swap refl refl)
      (Permᴰ.refl two.detectors) (Permᴰ.swap refl refl)

detect_all-iff-detect_example :
    In (alarm "b" "b") (detect_all as_listed two "b")
    ↔ ((name : String) × (detect two name "b" ≡ some (alarm "b" "b")) × (true ≡ true))
detect_all-iff-detect_example =
    detect_all-iff-detect as_listed two "b" (alarm "b" "b") two-IsRegistry
      (Permᴰ.refl two.detectors)

-- A request whose query hides a word behind an encoding.
abbrev request : Request
request = record { url = some ("/?%61", "%61"); header = []; cookies = [] }

abbrev unescape : String → Option String
unescape s = if s == "%61" then some "a" else none

detect_request_iff_example :
    In (alarm "a" "a") (detect_request unescape (λ n. as_listed) two (some request))
    ↔ ((text : String) × Scanned unescape request text × Reports two (alarm "a" "a") text)
detect_request_iff_example =
    detect_request_iff unescape (λ n. as_listed) two two-IsRegistry (λ n. Permᴰ.refl two.detectors)
      request (alarm "a" "a")
