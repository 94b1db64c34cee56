-- ===== src/Security/Engine/Scan.antt =====
-- security.go: what `DetectAll` and `DetectRequest` report.
use mathlib.Core.List.{filter_map}
use mathlib.Core.List.Permᴰ
use mathlib.Core.List.{Permᴰ}
use security_go.Shared.{
  ◌≡◌, refl, sym, ap, ◌∙◌, subst, ◌↔◌, ◌⊎◌, inl, inr, Bool, true, false, String, List, [], ◌∷◌,
  Option, none, some, if◌then◌else◌, arith, Bool-cases, Option-cases, In, In-Permᴰ,
}
use security_go.Shared.Assoc.{lookup, In-lookup, lookup-In}
use security_go.Security.{Result, Detector}
use security_go.Security.Engine.{Engine, Order, detect, add_hit, scan, detect_all}
use security_go.Security.Engine.Registry.{IsRegistry}

-- What one entry adds to the results.
abbrev pub hit : String → String × Detector → Option Result
hit input (name, d) = elim (d.detect input) [
  | none ↦ none
  | some r ↦ if r.detected then some r else none
]

pub scan-filter_map :
    (input : String) (ds : List (String × Detector)) → scan input ds ≡ filter_map (hit input) ds
unfolding scan filter_map
scan-filter_map input [] = refl
scan-filter_map input ((name, d) ∷ ds) = ground (arith, scan-filter_map input ds)

-- The order lists each entry of the engine's map once.
abbrev pub IsOrder : Order → Engine → Type 0
IsOrder order e = Permᴰ e.detectors (order e.detectors)

-- In whatever order the map is ranged over, `DetectAll` returns the same results, up to their order.
pub detect_all-perm :
    (o o' : Order) (e : Engine) (input : String)
    → IsOrder o e
    → IsOrder o' e
    → Permᴰ (detect_all o e input) (detect_all o' e input)
unfolding detect_all
detect_all-perm o o' e input p q =
    rw (scan-filter_map input (o e.detectors), scan-filter_map input (o' e.detectors))
      (Permᴰ.filter_map (hit input) (Permᴰ.trans (Permᴰ.symm p) q))

In-add_hit :
    (o : Option Result) (r : Result) (rest : List Result) → In r rest → In r (add_hit o rest)
unfolding add_hit
In-add_hit none r rest i = i
In-add_hit (some q) r rest i = elim (Bool-cases q.detected) [
  | inl yes_hit ↦ rw yes_hit (inr i)
  | inr no_hit ↦ rw no_hit i
]

taken-In :
    (taken : Bool) (q r : Result) (rest : List Result)
    → q.detected ≡ taken
    → In r (if taken then q ∷ rest else rest)
    → ((some q ≡ some r) × (r.detected ≡ true)) ⊎ In r rest
taken-In true q r rest t (inl e) = inl (ap some e, subst (λ (x : Result). x.detected ≡ true) e t)
taken-In true q r rest t (inr i) = inr i
taken-In false q r rest t i = inr i

add_hit-In :
    (o : Option Result) (r : Result) (rest : List Result)
    → In r (add_hit o rest)
    → ((o ≡ some r) × (r.detected ≡ true)) ⊎ In r rest
unfolding add_hit
add_hit-In none r rest i = inr i
add_hit-In (some q) r rest i = taken-In q.detected q r rest refl i

In-scan :
    (input : String) (ds : List (String × Detector)) (name : String) (d : Detector) (r : Result)
    → In (name, d) ds
    → d.detect input ≡ some r
    → r.detected ≡ true
    → In r (scan input ds)
unfolding scan
In-scan input [] name d r i e t = i
In-scan input ((j, w) ∷ ds) name d r (inl p) e t =
    let q : w.detect input ≡ some r = ap (λ (x : String × Detector). x.1.detect input) p ∙ e in
    rw (q, t) (inl refl)
In-scan input ((j, w) ∷ ds) name d r (inr i) e t =
    In-add_hit (w.detect input) r (scan input ds) (In-scan input ds name d r i e t)

scan-In :
    (input : String) (ds : List (String × Detector)) (r : Result)
    → In r (scan input ds)
    → (name : String) × (d : Detector) × In (name, d) ds
      × (d.detect input ≡ some r)
      × (r.detected ≡ true)
unfolding scan
scan-In input [] r i = elim i [ ]
scan-In input ((j, w) ∷ ds) r i = elim (add_hit-In (w.detect input) r (scan input ds) i) [
  | inl (e, t) ↦ (j, w, inl refl, e, t)
  | inr rest ↦ let (name, d, found, e, t) = scan-In input ds r rest in (name, d, inr found, e, t)
]

detect-lookup :
    (e : Engine) (name input : String) (d : Detector)
    → lookup name e.detectors ≡ some d
    → detect e name input ≡ d.detect input
unfolding detect
detect-lookup e name input d h = rw (h, detect)

detect_cases :
    (e : Engine) (name input : String) (r : Result)
    → detect e name input ≡ some r
    → (d : Detector) × (lookup name e.detectors ≡ some d) × (d.detect input ≡ some r)
unfolding detect
detect_cases e name input r h = elim (Option-cases (lookup name e.detectors)) [
  | inl missing ↦ cc (sym (detect-lookup_none e name input missing) ∙ h)
  | inr (d, here) ↦ (d, here, sym (detect-lookup e name input d here) ∙ h)
]
  where
    detect-lookup_none :
        (e : Engine) (name input : String)
        → lookup name e.detectors ≡ none
        → detect e name input ≡ none
    detect-lookup_none e name input m = rw (m, detect)

-- `DetectAll` reports a result exactly when `Detect` returns it, detected, for some name: for an
-- engine whose map has each name once, ranged over in any order.
pub detect_all-iff-detect :
    (order : Order) (e : Engine) (input : String) (r : Result)
    → IsRegistry e
    → IsOrder order e
    → In r (detect_all order e input)
      ↔ ((name : String) × (detect e name input ≡ some r) × (r.detected ≡ true))
unfolding detect_all
detect_all-iff-detect order e input r v o = (λ i. to i, λ (name, found, t). from name found t)
  where
    to :
        In r (scan input (order e.detectors))
        → (name : String) × (detect e name input ≡ some r) × (r.detected ≡ true)
    to i =
        let (name, d, found, answer, t) = scan-In input (order e.detectors) r i in
        let here = lookup-In name d e.detectors v.once (In-Permᴰ (name, d) (Permᴰ.symm o) found) in
        (name, detect-lookup e name input d here ∙ answer, t)

    from :
        (name : String)
        → detect e name input ≡ some r
        → r.detected ≡ true
        → In r (scan input (order e.detectors))
    from name found t =
        let (d, here, answer) = detect_cases e name input r found in
        In-scan input (order e.detectors) name d r
          (In-Permᴰ (name, d) o (In-lookup name d e.detectors here)) answer t
