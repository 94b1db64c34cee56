-- ===== src/Shared/Codec.antt =====
-- Concrete encodings for the examples: numbers as strokes, and lists of texts with a mark before each
-- character.
use Prim.Native.Nat.{ℕ, zero, suc}
use Prim.Native.String.{String, [] as eps, ◌∷◌ as cons}
use Prim.Native.Char.{Char, code}
use mathlib.Core.Path.{◌≡◌, refl, ap, ◌∙◌}
use mathlib.Core.List.{List, [], ◌∷◌}
use security_go.Shared.Tests.{◌==◌, if◌then◌else◌}

unfoldable pub strokes : ℕ → String
strokes zero = ""
strokes (suc n) = cons "I" (strokes n)

unfoldable pub count : String → ℕ
count eps = 0
count (cons c s) = suc (count s)

pub count-strokes : (n : ℕ) → count (strokes n) ≡ n
unfolding count strokes
count-strokes zero = refl
count-strokes (suc n) = ap suc (count-strokes n)

-- A text with a mark before each character and an end, in front of `rest`.
unfoldable pub mark : String → String → String
mark eps rest = cons "." (cons "." rest)
mark (cons c s) rest = cons "x" (cons c (mark s rest))

unfoldable pub encode : List String → String
unfolding mark
encode [] = ""
encode (s ∷ ss) = mark s (encode ss)

unfoldable pub push : Char → List String → List String
push c [] = []
push c (s ∷ ss) = cons c s ∷ ss

unfoldable pub decode : String → List String
unfolding push
decode eps = []
decode (cons m eps) = []
decode (cons m (cons c s)) =
    let rest = decode s in if code m == code "x" then push c rest else "" ∷ rest

decode-mark : (s rest : String) → decode (mark s rest) ≡ s ∷ decode rest
unfolding decode mark push
decode-mark eps rest = refl
decode-mark (cons c s) rest = ap (push c) (decode-mark s rest)

pub decode-encode : (ss : List String) → decode (encode ss) ≡ ss
unfolding decode encode
decode-encode [] = refl
decode-encode (s ∷ ss) = decode-mark s (encode ss) ∙ ap (λ xs. s ∷ xs) (decode-encode ss)
