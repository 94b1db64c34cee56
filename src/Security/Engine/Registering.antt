-- ===== src/Security/Engine/Registering.antt =====
-- security.go: the order in which detectors are registered.
use mathlib.Core.List.Permᴰ
use mathlib.Core.List.{Permᴰ}
use text.Mathlib.Text.{◌==◌}
use security_go.Shared.{
  ◌≡◌, refl, sym, ap, ◌∙◌, subst, String, List, [], ◌∷◌, Option, some, if◌then◌else◌, Bool-cases,
  inl, inr, In, In-Permᴰ, foldl, eq_iff,
}
use security_go.Shared.Assoc.{lookup, lookup-insert}
use security_go.Shared.Maps.{lookup-Permᴰ}
use security_go.Security.{Detector}
use security_go.Security.Engine.{Engine, Order, new_engine, register, detect_all}
use security_go.Security.Engine.Registry.{
  IsRegistry, new_engine-IsRegistry, register_all-IsRegistry,
}
use security_go.Security.Engine.Scan.{IsOrder, hit, scan-filter_map}

-- The same detector under each name.
abbrev Agree : Engine → Engine → Type 0
Agree e e' = (name : String) → lookup name e.detectors ≡ lookup name e'.detectors

-- Of one name there is one detector.
abbrev pub IsNamed : List Detector → Type 0
IsNamed ds = (a b : Detector) → In a ds → In b ds → a.name ≡ b.name → a ≡ b

lookup-register :
    (e : Engine) (d : Detector) (name : String)
    → lookup name (register e d).detectors
      ≡ (if d.name == name then some d else lookup name e.detectors)
unfolding register
lookup-register e d name = lookup-insert d.name name d e.detectors

register-Agree :
    (e e' : Engine) (d d' : Detector) → d ≡ d' → Agree e e' → Agree (register e d) (register e' d')
register-Agree e e' d d' q h name =
    lookup-register e d name ∙ rw (q, h name) (sym (lookup-register e' d' name))

module _ (a b : Detector) (one : a.name ≡ b.name → a ≡ b) where
  choose_either :
      (name : String) (x y : Option Detector)
      → x ≡ y
      → (if b.name == name then some b else (if a.name == name then some a else x))
        ≡ (if a.name == name then some a else (if b.name == name then some b else y))
  choose_either name x y e = elim (Bool-cases (a.name == name)) [
    | inl first ↦ elim (Bool-cases (b.name == name)) [
      | inl second ↦
          let same = one ((eq_iff a.name name).0 first ∙ sym ((eq_iff b.name name).0 second)) in
          rw (first, second) (ap some (sym same))
      | inr no_second ↦ rw (first, no_second) refl
    ]
    | inr no_first ↦ rw (no_first, e) refl
  ]

  -- Detectors of different names, or one detector twice.
  register_twice :
      (e e' : Engine) → Agree e e' → Agree (register (register e a) b) (register (register e' b) a)
  register_twice e e' h name =
      lookup-register (register e a) b name
      ∙ ap (λ x. if b.name == name then some b else x) (lookup-register e a name)
      ∙ choose_either name (lookup name e.detectors) (lookup name e'.detectors) (h name)
      ∙ sym (
          lookup-register (register e' b) a name
          ∙ ap (λ x. if a.name == name then some a else x) (lookup-register e' b name))

foldl-Agree :
    (ds : List Detector) (e e' : Engine)
    → Agree e e'
    → Agree (foldl register e ds) (foldl register e' ds)
foldl-Agree [] e e' h = h
foldl-Agree (d ∷ ds) e e' h =
    foldl-Agree ds (register e d) (register e' d) (register-Agree e e' d d refl h)

registered-Agree :
    {ds ds' : List Detector}
    → Permᴰ ds ds'
    → IsNamed ds
    → (e e' : Engine) → Agree e e'
    → Agree (foldl register e ds) (foldl register e' ds')
registered-Agree Permᴰ.nil n e e' h = h
registered-Agree (Permᴰ.cons {a} {b} q p) n e e' h =
    registered-Agree p (λ x y i j. n x y (inr i) (inr j)) (register e a) (register e' b)
      (register-Agree e e' a b q h)
registered-Agree (Permᴰ.swap {a} {b} {a'} {b'} {l} q q') n e e' h =
    foldl-Agree l (register (register e a) b) (register (register e' a') b') (
      subst (λ x. Agree (register (register e a) b) (register (register e' x) b')) q'
        (subst (λ x. Agree (register (register e a) b) (register (register e' b) x)) q
          (register_twice a b (n a b (inl refl) (inr (inl refl))) e e' h)))
registered-Agree (Permᴰ.trans {l₁} {l₂} {l₃} p p') n e e' h = λ name.
    registered-Agree p n e e' h name
    ∙ registered-Agree p'
        (λ a b i j. n a b (In-Permᴰ a (Permᴰ.symm p) i) (In-Permᴰ b (Permᴰ.symm p) j)) e' e'
        (λ k. refl) name

-- Engines that agree report the same.
detect_all-Agree :
    (o o' : Order) (e e' : Engine) (input : String)
    → IsRegistry e
    → IsRegistry e'
    → Agree e e'
    → IsOrder o e
    → IsOrder o' e'
    → Permᴰ (detect_all o e input) (detect_all o' e' input)
unfolding detect_all
detect_all-Agree o o' e e' input v v' h p q =
    rw (scan-filter_map input (o e.detectors), scan-filter_map input (o' e'.detectors))
      (Permᴰ.filter_map (hit input) (
        Permᴰ.trans (Permᴰ.symm p)
          (Permᴰ.trans (lookup-Permᴰ e.detectors e'.detectors v.once v'.once h) q)))

-- In whatever order detectors of different names are registered in a new engine, and in whatever order
-- its map is ranged over, `DetectAll` returns the same results, up to their order.
pub detect_all-registered :
    (o o' : Order) (ds ds' : List Detector) (input : String)
    → IsNamed ds
    → Permᴰ ds ds'
    → IsOrder o (foldl register new_engine ds)
    → IsOrder o' (foldl register new_engine ds')
    → Permᴰ
        (detect_all o (foldl register new_engine ds) input)
        (detect_all o' (foldl register new_engine ds') input)
detect_all-registered o o' ds ds' input n p k k' =
    detect_all-Agree o o' (foldl register new_engine ds) (foldl register new_engine ds') input
      (register_all-IsRegistry new_engine ds new_engine-IsRegistry)
      (register_all-IsRegistry new_engine ds' new_engine-IsRegistry)
      (registered-Agree p n new_engine new_engine (λ name. refl)) k k'
