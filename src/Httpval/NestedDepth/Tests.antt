-- ===== src/Httpval/NestedDepth/Tests.antt =====
-- httpval/nested_depth.go: an example.
use text.Mathlib.Text.{◌==◌}
use security_go.Shared.{◌≡◌, ◌↔◌, ◌⊎◌, ◌<◌, refl, true, String, List, [], ◌∷◌, if◌then◌else◌}
use security_go.Shared.Int.{pos}
use security_go.Httpval.NestedDepth.{Token, NestedDepth, detect}
use security_go.Httpval.NestedDepth.Document.{
  Items, scalar, array, cons, nil, emit_items, depth_items, elements_items,
}
use security_go.Httpval.NestedDepth.Limits.{detect-documents_iff}

abbrev limits : NestedDepth
limits = record { max_depth = pos 1; max_keys = pos 0 }

-- [[1]]
abbrev nested : Items
nested = cons (array (cons (array (cons scalar nil)) nil)) nil

abbrev tokens : String → List Token
tokens s =
    if s == "[[1]]"
    then Token.open_bracket ∷ Token.open_bracket ∷ Token.element ∷ Token.close_bracket
      ∷ Token.close_bracket ∷ []
    else []

detect-documents_iff_example :
    ((detect (λ n. "") limits tokens "[[1]]").detected ≡ true) ↔ ((1 < 2) ⊎ ((0 < 0) × (0 < 1)))
unfolding emit_items depth_items elements_items
detect-documents_iff_example = detect-documents_iff (λ n. "") limits tokens "[[1]]" nested refl refl
