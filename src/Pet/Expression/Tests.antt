-- ===== src/Pet/Expression/Tests.antt =====
-- pet/expression.go: an example.
use security_go.Shared.{map, refl, [], ◌∷◌, ◌≡◌, ◌↔◌, true, String, In}
use security_go.Shared.Int.{pos}
use security_go.Pet.Expression.{
  smile, joy, cry, depressed, terrified, angry, coquettish, cute, pleasing, knocking, facepalm,
  tongue, expressions, string, expression_of,
}
use security_go.Pet.Expression.Slugs.{expression_of-string_iff}

abbrev embed : String → String
embed path = path

expression_of-string_iff_example :
    (expression_of embed "joy" ≡ (pos 1, true))
    ↔ (In (pos 1) (expressions embed) × (string embed (pos 1) ≡ "joy"))
expression_of-string_iff_example = expression_of-string_iff embed "joy" (pos 1)

-- The constants are in the order of the slugs.
slugs :
    map (string embed) (
      smile ∷ joy ∷ cry ∷ depressed ∷ terrified ∷ angry ∷ coquettish ∷ cute ∷ pleasing ∷ knocking
      ∷ facepalm ∷ tongue ∷ [])
    ≡ "smile" ∷ "joy" ∷ "cry" ∷ "depressed" ∷ "terrified" ∷ "angry" ∷ "coquettish" ∷ "cute"
      ∷ "pleasing" ∷ "knocking" ∷ "facepalm" ∷ "tongue" ∷ []
unfolding string
slugs = refl
