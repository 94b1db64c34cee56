-- ===== src/Httpval/NestedDepth/Document.antt =====
-- JSON documents, apart from their texts: how deep they are, and what the decoder reads from them.
use Prim.Native.Nat.{max}
use security_go.Shared.{ℕ, suc, ◌+◌, List, ◌∷◌}
use security_go.Httpval.NestedDepth.{Token}

mutual
  pub data Value : Type 0 where
    scalar : Value
    array : Items → Value
    object : Fields → Value

  pub data Items : Type 0 where
    nil : Items
    cons : Value → Items → Items

  -- The keys do not matter.
  pub data Fields : Type 0 where
    end : Fields
    field : Value → Fields → Fields

-- How many arrays and objects stand around one another at most.
unfoldable mutual
  pub depth : Value → ℕ
  depth scalar = 0
  depth (array xs) = suc (depth_items xs)
  depth (object fs) = suc (depth_fields fs)

  pub depth_items : Items → ℕ
  depth_items nil = 0
  depth_items (cons v xs) = max (depth v) (depth_items xs)

  pub depth_fields : Fields → ℕ
  depth_fields end = 0
  depth_fields (field v fs) = max (depth v) (depth_fields fs)

-- How many keys and scalars there are.
unfoldable mutual
  pub elements : Value → ℕ
  elements scalar = 1
  elements (array xs) = elements_items xs
  elements (object fs) = elements_fields fs

  pub elements_items : Items → ℕ
  elements_items nil = 0
  elements_items (cons v xs) = elements v + elements_items xs

  pub elements_fields : Fields → ℕ
  elements_fields end = 0
  elements_fields (field v fs) = suc (elements v + elements_fields fs)

-- The tokens of a document, in front of later ones.
unfoldable mutual
  pub emit : Value → List Token → List Token
  emit scalar ts = Token.element ∷ ts
  emit (array xs) ts = Token.open_bracket ∷ emit_items xs (Token.close_bracket ∷ ts)
  emit (object fs) ts = Token.open_brace ∷ emit_fields fs (Token.close_brace ∷ ts)

  pub emit_items : Items → List Token → List Token
  emit_items nil ts = ts
  emit_items (cons v xs) ts = emit v (emit_items xs ts)

  pub emit_fields : Fields → List Token → List Token
  emit_fields end ts = ts
  emit_fields (field v fs) ts = Token.element ∷ emit v (emit_fields fs ts)
