-- ===== src/Shared/Text.antt =====
-- Texts cut at a character, and the order of texts by their characters (for UTF-8 the order of bytes).
use Prim.Native.Nat.{ℕ, zero, suc, ◌+◌, ◌≤◌}
use Prim.Native.Char.{Char, code}
use Prim.Native.String.{String, [] as eps, ◌∷◌ as cons, ◌++◌}
use mathlib.Core.Path.{◌≡◌, refl, sym, ap, ap₂, ◌∙◌}
use mathlib.Core.Logic.{◌⊎◌, inl, inr}
use mathlib.Core.Bool.{Bool, true, false, not, ◌&&◌, ◌||◌}
use mathlib.Core.Option.{Option, none, some}
use mathlib.Core.List.{List, [], ◌∷◌}
use native.Mathlib.Omega.{arith}
use text.Mathlib.TextEquality.{Char-path}
use text.Mathlib.TextLemmas.{cons-append, nil-append, head-eq_of_cons-eq, tail-eq_of_cons-eq}
use security_go.Shared.Tests.{ltb, ◌==◌, if◌then◌else◌, Bool-cases}

-- No character of the text has the number.
unfoldable pub lacks : ℕ → String → Bool
lacks n eps = true
lacks n (cons c s) = not (code c == n) && lacks n s

abbrev pub before_first : Char → List String → List String
before_first c [] = []
before_first c (w ∷ ws) = cons c w ∷ ws

-- `strings.Split` at a character.
unfoldable pub split : ℕ → String → List String
split n eps = "" ∷ []
split n (cons c s) = let rest = split n s in if code c == n then "" ∷ rest else before_first c rest

pub split-lacks : (n : ℕ) (s : String) → lacks n s ≡ true → split n s ≡ s ∷ []
unfolding split lacks
split-lacks n eps h = refl
split-lacks n (cons c s) h = ground (arith, split-lacks n s)

pub split-append :
    (n : ℕ) (d : Char) (s t : String)
    → code d ≡ n
    → lacks n s ≡ true
    → split n (s ++ cons d t) ≡ s ∷ split n t
unfolding split lacks
split-append n d eps t e h = rw (nil-append (cons d t)) (ground arith)
split-append n d (cons c s) t e h =
    let rest = split-append n d s t e (ground arith) in
    rw (cons-append c s (cons d t)) (ground (arith, rest))

-- Where a text is cut at the first such character, both parts are determined.
pub cut-injective :
    (n : ℕ) (d : Char) (s s' t t' : String)
    → code d ≡ n
    → lacks n s ≡ true
    → lacks n s' ≡ true
    → s ++ cons d t ≡ s' ++ cons d t'
    → (s ≡ s') × (t ≡ t')
unfolding lacks
cut-injective n d eps eps t t' e h h' q =
    (refl, tail-eq_of_cons-eq (sym (nil-append (cons d t)) ∙ q ∙ nil-append (cons d t')))
cut-injective n d eps (cons c s') t t' e h h' q =
    let p : cons d t ≡ cons c (s' ++ cons d t') =
      sym (nil-append (cons d t)) ∙ q ∙ cons-append c s' (cons d t') in
    absurd (ground (arith, ap code (head-eq_of_cons-eq p)))
cut-injective n d (cons c s) eps t t' e h h' q =
    let p : cons c (s ++ cons d t) ≡ cons d t' =
      sym (cons-append c s (cons d t)) ∙ q ∙ nil-append (cons d t') in
    absurd (ground (arith, ap code (head-eq_of_cons-eq p)))
cut-injective n d (cons c s) (cons c' s') t t' e h h' q =
    let p : cons c (s ++ cons d t) ≡ cons c' (s' ++ cons d t') =
      sym (cons-append c s (cons d t)) ∙ q ∙ cons-append c' s' (cons d t') in
    let (same, rest) =
      cut-injective n d s s' t t' e (ground arith) (ground arith) (tail-eq_of_cons-eq p) in
    (ap₂ cons (head-eq_of_cons-eq p) same, rest)

-- The order of the texts.
unfoldable pub before : String → String → Bool
before eps eps = false
before eps (cons d t) = true
before (cons c s) eps = false
before (cons c s) (cons d t) =
    let later = before s t in ltb (code c) (code d) || (code c == code d && later)

pub before_trans : (s t u : String) → before s t ≡ true → before t u ≡ true → before s u ≡ true
unfolding before
before_trans eps eps eps h k = h
before_trans eps (cons d t) eps h k = cc
before_trans eps t (cons e u) h k = refl
before_trans (cons c s) eps u h k = cc
before_trans (cons c s) (cons d t) eps h k = cc
before_trans (cons c s) (cons d t) (cons e u) h k = ground (arith, before_trans s t u)

pub before_total : (s t : String) → before s t ≡ false → before t s ≡ false → s ≡ t
unfolding before
before_total eps eps h k = refl
before_total eps (cons d t) h k = cc
before_total (cons c s) eps h k = cc
before_total (cons c s) (cons d t) h k =
    ap₂ cons (Char-path c d (ground arith)) (before_total s t (ground arith) (ground arith))

before_irrefl : (s : String) → before s s ≡ false
unfolding before
before_irrefl eps = refl
before_irrefl (cons c s) = ground (arith, before_irrefl s)

-- Of two different texts exactly one comes before the other.
pub before-cases :
    (s t : String)
    → ¬ s ≡ t
    → ((before s t ≡ true) × (before t s ≡ false)) ⊎ ((before s t ≡ false) × (before t s ≡ true))
before-cases s t n = elim (Bool-cases (before s t)) [
  | inl st ↦ elim (Bool-cases (before t s)) [
    | inl ts ↦ let p = sym (before_trans s t s st ts) ∙ before_irrefl s in cc
    | inr not_ts ↦ inl (st, not_ts)
  ]
  | inr not_st ↦ elim (Bool-cases (before t s)) [
    | inl ts ↦ inr (not_st, ts)
    | inr not_ts ↦ absurd (n (before_total s t not_st not_ts))
  ]
]

-- A character between two texts.
pub one-append : (c : Char) (t : String) → (cons c eps ++ t) ≡ cons c t
one-append c t = cons-append c eps t ∙ ap (cons c) (nil-append t)

pub cut-injective_at :
    (n : ℕ) (d : Char) (s s' t t' : String)
    → code d ≡ n
    → lacks n s ≡ true
    → lacks n s' ≡ true
    → s ++ (cons d eps ++ t) ≡ s' ++ (cons d eps ++ t')
    → (s ≡ s') × (t ≡ t')
cut-injective_at n d s s' t t' e h h' q =
    cut-injective n d s s' t t' e h h'
      (ap (λ x. s ++ x) (sym (one-append d t)) ∙ q ∙ ap (λ x. s' ++ x) (one-append d t'))

pub lacks-append :
    (n : ℕ) (s t : String) → lacks n s ≡ true → lacks n t ≡ true → lacks n (s ++ t) ≡ true
unfolding lacks
lacks-append n eps t h k = rw (nil-append t) k
lacks-append n (cons c s) t h k =
    let rest = lacks-append n s t (ground arith) k in rw (cons-append c s t) (ground (arith, rest))

lacks-cut : (n : ℕ) (d : Char) (s t : String) → code d ≡ n → lacks n (s ++ cons d t) ≡ false
unfolding lacks
lacks-cut n d eps t e = rw (nil-append (cons d t)) (ground arith)
lacks-cut n d (cons c s) t e =
    let rest = lacks-cut n d s t e in rw (cons-append c s (cons d t)) (ground (arith, rest))

-- A text without the character is no text that is cut there.
pub uncut :
    (n : ℕ) (d : Char) (s s' t : String)
    → code d ≡ n
    → lacks n s ≡ true
    → ¬ s ≡ s' ++ (cons d eps ++ t)
uncut n d s s' t e h q =
    let p = sym h ∙ ap (lacks n) (q ∙ ap (λ x. s' ++ x) (one-append d t)) ∙ lacks-cut n d s' t e in
    cc

-- The number of bytes, where a text is its bytes: the character with the code of each.
unfoldable pub size : String → ℕ
size eps = 0
size (cons c s) = size s + 1

-- `s[n:]`, which panics if the text is shorter.
unfoldable pub slice_from : ℕ → String → Option String
slice_from zero s = some s
slice_from (suc n) eps = none
slice_from (suc n) (cons c s) = slice_from n s

pub slice_from_within :
    (n : ℕ) (s : String)
    → n ≤ size s
    → (rest : String) × (slice_from n s ≡ some rest) × (size rest + n ≡ size s)
unfolding slice_from size
slice_from_within zero s h = (s, refl, omega arith)
slice_from_within (suc n) eps h = absurd (omega arith)
slice_from_within (suc n) (cons c s) h =
    let (rest, e, q) = slice_from_within n s (omega arith) in (rest, e, omega arith)

-- `s[:n]` of a text that is not shorter.
unfoldable pub slice_to : ℕ → String → String
slice_to zero s = ""
slice_to (suc n) eps = ""
slice_to (suc n) (cons c s) = cons c (slice_to n s)
