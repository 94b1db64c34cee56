-- ===== src/Data/Header.antt =====
-- data/jwt_attack.go: which tokens are reported.
use security_go.Shared.{◌≡◌, ◌⊎◌, true, Bool, ◌||◌, String, List, [], ◌∷◌, some}
use security_go.Data.JwtAttack.{Packages, Header, text_at, read_header}

module _ (pk : Packages) where
  -- The header names no algorithm.
  abbrev pub HasNoAlg : Header → Type 0
  HasNoAlg header =
      (alg : String) × (text_at "alg" header ≡ some alg) × (pk.equal_fold alg "none" ≡ true)

  abbrev pub is_traversal : String → Bool
  is_traversal kid = pk.contains kid "../" || pk.contains kid "..\\"

  -- The header's `kid` climbs out of a folder.
  abbrev pub HasTraversal : Header → Type 0
  HasTraversal header =
      (kid : String) × (text_at "kid" header ≡ some kid) × (is_traversal kid ≡ true)

  -- The first part of a token decodes to a header that names no algorithm or climbs out of a folder,
  -- or whose token has three parts with an empty third.
  abbrev pub IsForged : List String → Type 0
  IsForged [] = ⊥
  IsForged (p ∷ []) = ⊥
  IsForged (p ∷ q ∷ rest) =
      (header : Header) × (read_header pk p ≡ some header)
      × (HasNoAlg header ⊎ HasTraversal header ⊎ (rest ≡ "" ∷ []))
