-- ===== src/Httpval/NestedDepth/Limits.antt =====
-- httpval/nested_depth.go: which documents are reported.
use Prim.Native.Nat.{max}
use text.Mathlib.Text.{◌==◌}
use security_go.Shared.{
  ℕ, suc, ◌+◌, ◌≤◌, ◌<◌, ◌≡◌, ◌↔◌, ◌⊎◌, inl, inr, refl, ◌∙◌, Bool, true, false, not, ◌&&◌, ◌||◌,
  String, List, [], ◌∷◌, leb, ◌==◌ as nat_eq, if◌then◌else◌, arith, Bool-cases,
}
use security_go.Shared.Int.{ℤ, pos, negsuc, lt_ℤ, pos_part}
use security_go.Security.{Result}
use security_go.Httpval.NestedDepth.{Token, NestedDepth, scan, detect, too_deep, too_many, bomb}
use security_go.Httpval.NestedDepth.Document.{
  Value, Items, Fields, scalar, array, object, nil, cons, end, field, depth, depth_items,
  depth_fields, elements, elements_items, elements_fields, emit, emit_items, emit_fields,
}

flip : (b : Bool) (x y : Result) → (if not b then y else x) ≡ (if b then x else y)
flip true x y = refl
flip false x y = refl

module _ (itoa : ℤ → String) (d : NestedDepth) where
  -- The limits as numbers: a depth limit below 0 acts as 0, and an element limit below 1 as none.
  abbrev pub deepest : ℕ
  deepest = pos_part d.max_depth

  abbrev pub most : ℕ
  most = pos_part d.max_keys

  unfoldable fits : ℕ → ℕ → Bool
  fits n k = leb n deepest && (nat_eq most 0 || leb k most)

  -- From depth `n` with `k` elements: the scan reaches the later tokens with `m` elements, or the
  -- limits are exceeded somewhere and the input is reported.
  unfoldable Passes : ℕ → ℕ → ℕ → ℕ → List Token → List Token → Type 0
  Passes n k deep m ts later =
      ((fits deep m ≡ true) × (scan itoa d (pos n) (pos k) ts ≡ scan itoa d (pos n) (pos m) later))
      ⊎ ((fits deep m ≡ false) × ((scan itoa d (pos n) (pos k) ts).detected ≡ true))

  too_deep_test : (m : ℤ) (n : ℕ) → lt_ℤ m (pos (suc n)) ≡ not (leb (suc n) (pos_part m))
  too_deep_test (pos m) n = ground arith
  too_deep_test (negsuc m) n = ground arith

  too_many_test :
      (m : ℤ) (k : ℕ)
      → (lt_ℤ (pos 0) m && lt_ℤ m (pos (suc k)))
        ≡ not (nat_eq (pos_part m) 0 || leb (suc k) (pos_part m))
  too_many_test (pos m) k = ground arith
  too_many_test (negsuc m) k = ground arith

  abbrev open_step : ℕ → ℕ → List Token → Result
  open_step n k ts =
      if leb (suc n) deepest
      then scan itoa d (pos (suc n)) (pos k) ts
      else too_deep itoa d (pos (suc n)) (pos k)

  scan-open :
      (n k : ℕ) (ts : List Token)
      → (scan itoa d (pos n) (pos k) (Token.open_bracket ∷ ts) ≡ open_step n k ts)
        × (scan itoa d (pos n) (pos k) (Token.open_brace ∷ ts) ≡ open_step n k ts)
  unfolding scan
  scan-open n k ts = (
    rw (too_deep_test d.max_depth n) (flip (leb (suc n) deepest) _ _),
    rw (too_deep_test d.max_depth n) (flip (leb (suc n) deepest) _ _),
  )

  abbrev element_step : ℕ → ℕ → List Token → Result
  element_step n k ts =
      if nat_eq most 0 || leb (suc k) most
      then scan itoa d (pos n) (pos (suc k)) ts
      else too_many itoa d (pos n) (pos (suc k))

  scan-element :
      (n k : ℕ) (ts : List Token)
      → scan itoa d (pos n) (pos k) (Token.element ∷ ts) ≡ element_step n k ts
  unfolding scan
  scan-element n k ts =
      rw (too_many_test d.max_keys k) (flip (nat_eq most 0 || leb (suc k) most) _ _)

  fits-max : (a b m k : ℕ) → m ≤ k → fits (max a b) k ≡ (fits a m && fits b k)
  unfolding fits
  fits-max a b m k h = ground arith

  fits_less : (a b k : ℕ) → a ≤ b → fits b k ≡ true → fits a k ≡ true
  unfolding fits
  fits_less a b k h e = ground arith

  -- One run after another.
  Passes-Passes :
      (n k a m b m' : ℕ) (ts mid later : List Token)
      → m ≤ m'
      → n ≤ a
      → Passes n k a m ts mid
      → (fits n m ≡ true → Passes n m b m' mid later)
      → Passes n k (max a b) m' ts later
  unfolding Passes
  Passes-Passes n k a m b m' ts mid later h low (inr (e, r)) second =
      inr (fits-max a b m m' h ∙ rw e refl, r)
  Passes-Passes n k a m b m' ts mid later h low (inl (e, r)) second =
      elim (second (fits_less n a m low e)) [
        | inl (f, q) ↦ inl (fits-max a b m m' h ∙ rw (e, f) refl, r ∙ q)
        | inr (f, q) ↦ inr (fits-max a b m m' h ∙ rw (e, f) refl, rw r q)
      ]

  -- A run inside a pair of delimiters.
  enclosed :
      (n k e m : ℕ) (o c : Token) (inner later : List Token)
      → k ≤ m
      → fits n k ≡ true
      → scan itoa d (pos n) (pos k) (o ∷ inner) ≡ open_step n k inner
      → scan itoa d (pos (suc n)) (pos m) (c ∷ later) ≡ scan itoa d (pos n) (pos m) later
      → (fits (suc n) k ≡ true → Passes (suc n) k (suc n + e) m inner (c ∷ later))
      → Passes n k (n + suc e) m (o ∷ inner) later
  unfolding Passes fits too_deep bomb
  enclosed n k e m o c inner later h ok opens closes run = elim (Bool-cases (leb (suc n) deepest)) [
    | inr shallow ↦ inr (ground arith, rw (opens, shallow) refl)
    | inl deep ↦ elim (run (ground arith)) [
      | inl (f, q) ↦ inl (ground arith, opens ∙ rw deep (q ∙ closes))
      | inr (f, q) ↦ inr (ground arith, rw (opens, deep) q)
    ]
  ]

  one_more :
      (n k : ℕ) (ts : List Token) → fits n k ≡ true → Passes n k n (suc k) (Token.element ∷ ts) ts
  unfolding Passes fits too_many bomb
  one_more n k ts ok = elim (Bool-cases (nat_eq most 0 || leb (suc k) most)) [
    | inl within ↦ inl (ground arith, scan-element n k ts ∙ rw within refl)
    | inr above ↦ inr (ground arith, rw (scan-element n k ts, above) refl)
  ]

  resized :
      (n k a b m m' : ℕ) (ts later : List Token)
      → a ≡ b
      → m ≡ m'
      → Passes n k a m ts later
      → Passes n k b m' ts later
  resized n k a b m m' ts later e f h = rw (← e, ← f) h

  nothing_more : (n k : ℕ) (ts : List Token) → fits n k ≡ true → Passes n k (n + 0) (k + 0) ts ts
  unfolding Passes
  nothing_more n k ts ok =
      resized n k n (n + 0) k (k + 0) ts ts (omega arith) (omega arith) (inl (ok, refl))

  mutual
    unfolding depth elements emit scan

    emit-Passes :
        (v : Value) (n k : ℕ) (ts : List Token)
        → fits n k ≡ true
        → Passes n k (n + depth v) (k + elements v) (emit v ts) ts
    emit-Passes scalar n k ts ok =
        resized n k n (n + 0) (suc k) (k + 1) _ ts (omega arith) (omega arith) (one_more n k ts ok)
    emit-Passes (array xs) n k ts ok =
        enclosed n k (depth_items xs) (k + elements_items xs) Token.open_bracket Token.close_bracket
          (emit_items xs (Token.close_bracket ∷ ts)) ts (omega arith) ok
          (scan-open n k (emit_items xs (Token.close_bracket ∷ ts))).0 refl
          (emit_items-Passes xs (suc n) k (Token.close_bracket ∷ ts))
    emit-Passes (object fs) n k ts ok =
        enclosed n k (depth_fields fs) (k + elements_fields fs) Token.open_brace Token.close_brace
          (emit_fields fs (Token.close_brace ∷ ts)) ts (omega arith) ok
          (scan-open n k (emit_fields fs (Token.close_brace ∷ ts))).1 refl
          (emit_fields-Passes fs (suc n) k (Token.close_brace ∷ ts))

    emit_items-Passes :
        (xs : Items) (n k : ℕ) (ts : List Token)
        → fits n k ≡ true
        → Passes n k (n + depth_items xs) (k + elements_items xs) (emit_items xs ts) ts
    emit_items-Passes nil n k ts ok = nothing_more n k ts ok
    emit_items-Passes (cons v xs) n k ts ok =
        let m = k + elements v in
        let m' = m + elements_items xs in
        resized n k (max (n + depth v) (n + depth_items xs)) _ m' _ _ ts (omega arith) (omega arith)
          (Passes-Passes n k (n + depth v) m (n + depth_items xs) m' (emit v (emit_items xs ts))
            (emit_items xs ts) ts (omega arith) (omega arith)
            (emit-Passes v n k (emit_items xs ts) ok) (emit_items-Passes xs n m ts))

    emit_fields-Passes :
        (fs : Fields) (n k : ℕ) (ts : List Token)
        → fits n k ≡ true
        → Passes n k (n + depth_fields fs) (k + elements_fields fs) (emit_fields fs ts) ts
    emit_fields-Passes end n k ts ok = nothing_more n k ts ok
    emit_fields-Passes (field v fs) n k ts ok =
        let rest = emit_fields fs ts in
        let m = suc k + elements v in
        let m' = m + elements_fields fs in
        resized n k (max n (max (n + depth v) (n + depth_fields fs))) _ m' _ _ ts (omega arith)
          (omega arith)
          (Passes-Passes n k n (suc k) (max (n + depth v) (n + depth_fields fs)) m'
            (Token.element ∷ emit v rest) (emit v rest) ts (omega arith) (omega arith)
            (one_more n k (emit v rest) ok)
            (λ key_ok.
              Passes-Passes n (suc k) (n + depth v) m (n + depth_fields fs) m' (emit v rest) rest ts
                (omega arith) (omega arith) (emit-Passes v n (suc k) rest key_ok)
                (emit_fields-Passes fs n m ts)))

  Passes-iff :
      (deep m : ℕ) (ts : List Token)
      → Passes 0 0 deep m ts []
      → ((scan itoa d (pos 0) (pos 0) ts).detected ≡ true)
        ↔ ((deepest < deep) ⊎ ((0 < most) × (most < m)))
  unfolding Passes fits scan
  Passes-iff deep m ts (inl (f, q)) = (
    λ e. cc (rw q at e),
    λ e. elim e [ inl a ↦ absurd (ground arith) | inr (b, c) ↦ absurd (ground arith) ],
  )
  Passes-iff deep m ts (inr (f, q)) = (
    λ e. elim (Bool-cases (leb deep deepest)) [
      | inl shallow ↦ inr (ground arith, ground arith)
      | inr over ↦ inl (ground arith)
    ],
    λ e. q,
  )

  -- A text that the decoder reads as JSON documents, one after another, is reported exactly if they
  -- are nested deeper than the limit, or hold more keys and scalars than a limit that is above 0. A
  -- depth limit below 0 acts as 0.
  pub detect-documents_iff :
      (tokens : String → List Token) (input : String) (documents : Items)
      → (input == "") ≡ false
      → tokens input ≡ emit_items documents []
      → ((detect itoa d tokens input).detected ≡ true)
        ↔ ((deepest < depth_items documents) ⊎ ((0 < most) × (most < elements_items documents)))
  unfolding detect fits
  detect-documents_iff tokens input documents some_text read =
      rw (some_text, read)
        (Passes-iff (depth_items documents) (elements_items documents) (emit_items documents []) (
          resized 0 0 _ _ _ _ _ [] (omega arith) (omega arith)
            (emit_items-Passes documents 0 0 [] (ground arith))))
