-- ===== src/Security/Engine/Requests.antt =====
-- security.go: what `DetectRequest` reports.
use security_go.Shared.{
  ℕ, ◌+◌, ◌≡◌, refl, sym, ap, ◌∙◌, subst, ◌↔◌, ◌⊎◌, inl, inr, ◌++◌, Bool, true, false, not, String,
  List, [], ◌∷◌, Option, none, some, if◌then◌else◌, eq_iff, Bool-cases, In, In-append,
  In-append_left, In-append_right,
}
use security_go.Security.{Result}
use security_go.Security.Engine.{
  Engine, Order, Request, detect, detect_all, collect_request_inputs, detect_decoded, detect_inputs,
  detect_request,
}
use security_go.Security.Engine.Inputs.{IsInput, collected-IsInput, IsInput-collected}
use security_go.Security.Engine.Registry.{IsRegistry}
use security_go.Security.Engine.Scan.{IsOrder, detect_all-iff-detect}
use text.Mathlib.Text.{◌==◌}

-- A text that `DetectRequest` scans: an input of the request, or what it decodes to.
pub data Scanned (query_unescape : String → Option String) (r : Request) (text : String)
    : Type 0 where
  plain : IsInput r text → Scanned query_unescape r text
  decoded :
      (input : String)
      → IsInput r input
      → query_unescape input ≡ some text
      → Scanned query_unescape r text

-- `Detect` returns the result under some name, detected.
abbrev pub Reports : Engine → Result → String → Type 0
Reports e r text = (name : String) × (detect e name text ≡ some r) × (r.detected ≡ true)

In-if : (taken : Bool) (r : Result) (rs : List Result) → In r (if taken then rs else []) → In r rs
In-if true r rs i = i
In-if false r rs i = elim i [ ]

module _ (query_unescape : String → Option String) (order : ℕ → Order) (e : Engine)
    (registry : IsRegistry e) (orders : (n : ℕ) → IsOrder (order n) e) where
  -- One scan.
  scanned :
      (n : ℕ) (r : Result) (text : String) → In r (detect_all (order n) e text) ↔ Reports e r text
  scanned n r text = detect_all-iff-detect (order n) e text r registry (orders n)

  -- The result comes from one of the inputs, as it is or decoded.
  abbrev From : List String → Result → Type 0
  From inputs r =
      (input : String) × In input inputs
      × (Reports e r input
          ⊎ ((text : String) × (query_unescape input ≡ some text) × Reports e r text))

  detect_decoded-Reports :
      (n : ℕ) (input : String) (o : Option String) (r : Result)
      → In r (detect_decoded query_unescape order e n input o)
      → (text : String) × (o ≡ some text) × Reports e r text
  unfolding detect_decoded
  detect_decoded-Reports n input none r i = elim i [ ]
  detect_decoded-Reports n input (some text) r i = (
    text,
    refl,
    (scanned n r text).0 (In-if (not (text == input)) r (detect_all (order n) e text) i),
  )

  -- The scan of the decoded text that is left out is the scan of the input itself.
  Reports-detect_decoded :
      (n : ℕ) (input text : String) (r : Result) (rest : List Result)
      → Reports e r text
      → In r (
          detect_all (order n) e input
          ++ (detect_decoded query_unescape order e (n + 1) input (some text) ++ rest))
  unfolding detect_decoded
  Reports-detect_decoded n input text r rest h = elim (Bool-cases (text == input)) [
    | inl same ↦
        In-append_left r (detect_all (order n) e input) _
          ((scanned n r input).1 (subst (Reports e r) ((eq_iff text input).0 same) h))
    | inr other ↦
        In-append_right r (detect_all (order n) e input) _
          (In-append_left r _ rest (rw other ((scanned (n + 1) r text).1 h)))
  ]

  detect_inputs-From :
      (n : ℕ) (inputs : List String) (r : Result)
      → In r (detect_inputs query_unescape order e n inputs)
      → From inputs r
  unfolding detect_inputs
  detect_inputs-From n [] r i = elim i [ ]
  detect_inputs-From n (input ∷ inputs) r i =
      elim (In-append r (detect_all (order n) e input) _ i) [
        | inl here ↦ (input, inl refl, inl ((scanned n r input).0 here))
        | inr later ↦
            elim (In-append r (detect_decoded query_unescape order e (n + 1) input _) _ later) [
              | inl dec ↦ (input, inl refl, inr (detect_decoded-Reports (n + 1) input _ r dec))
              | inr rest ↦
                  let (input', found, from) = detect_inputs-From (n + 2) inputs r rest in
                  (input', inr found, from)
            ]
      ]

  Reports-detect_inputs :
      (n : ℕ) (inputs : List String) (input : String) (r : Result)
      → In input inputs
      → Reports e r input
      → In r (detect_inputs query_unescape order e n inputs)
  unfolding detect_inputs
  Reports-detect_inputs n [] input r i h = elim i [ ]
  Reports-detect_inputs n (x ∷ inputs) input r (inl same) h =
      In-append_left r (detect_all (order n) e x) _
        ((scanned n r x).1 (subst (Reports e r) (sym same) h))
  Reports-detect_inputs n (x ∷ inputs) input r (inr i) h =
      In-append_right r (detect_all (order n) e x) _ (
        In-append_right r (detect_decoded query_unescape order e (n + 1) x _) _
          (Reports-detect_inputs (n + 2) inputs input r i h))

  Reports-detect_inputs_decoded :
      (n : ℕ) (inputs : List String) (input text : String) (r : Result)
      → In input inputs
      → query_unescape input ≡ some text
      → Reports e r text
      → In r (detect_inputs query_unescape order e n inputs)
  unfolding detect_inputs
  Reports-detect_inputs_decoded n [] input text r i q h = elim i [ ]
  Reports-detect_inputs_decoded n (x ∷ inputs) input text r (inl same) q h =
      let p : query_unescape x ≡ some text = ap query_unescape same ∙ q in
      rw p (Reports-detect_decoded n x text r _ h)
  Reports-detect_inputs_decoded n (x ∷ inputs) input text r (inr i) q h =
      In-append_right r (detect_all (order n) e x) _ (
        In-append_right r (detect_decoded query_unescape order e (n + 1) x _) _
          (Reports-detect_inputs_decoded (n + 2) inputs input text r i q h))

  -- `DetectRequest` reports a result exactly when `Detect` returns it under some name, detected, on a
  -- text of the request's URL, its re-encoded query, a header's value behind its name, or a cookie, or
  -- on what one such text decodes to, decoded once. The engine has each name once, and each scan
  -- ranges over its map in an order of its own.
  pub detect_request_iff :
      (req : Request) (r : Result)
      → In r (detect_request query_unescape order e (some req))
        ↔ ((text : String) × Scanned query_unescape req text × Reports e r text)
  unfolding detect_request
  detect_request_iff req r = (λ i. to i, λ (text, s, h). from text s h)
    where
      to :
          In r (detect_inputs query_unescape order e 0 (collect_request_inputs (some req)))
          → (text : String) × Scanned query_unescape req text × Reports e r text
      to i =
          let (input, found, where_from) =
            detect_inputs-From 0 (collect_request_inputs (some req)) r i in
          let is_input = collected-IsInput input req found in
          elim where_from [
            | inl here ↦ (input, plain is_input, here)
            | inr (text, q, here) ↦ (text, decoded input is_input q, here)
          ]

      from :
          (text : String)
          → Scanned query_unescape req text
          → Reports e r text
          → In r (detect_inputs query_unescape order e 0 (collect_request_inputs (some req)))
      from text (plain found) h =
          Reports-detect_inputs 0 _ text r (IsInput-collected text req found) h
      from text (decoded input found q) h =
          Reports-detect_inputs_decoded 0 _ input text r (IsInput-collected input req found) q h
