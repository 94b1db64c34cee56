-- ===== src/Security/Engine/Registry.antt =====
-- security.go: what `Register` leaves in the engine, and what `Detect` finds there.
use security_go.Shared.{
  ◌≡◌, refl, inl, inr, String, List, [], ◌∷◌, if◌then◌else◌, arith, All, Bool-cases, foldl,
}
use security_go.Shared.Assoc.{insert, IsMap, lookup-insert, insert-IsMap}
use security_go.Security.{Detector}
use security_go.Security.Engine.{Engine, new_engine, register, detect}
use text.Mathlib.Text.{◌==◌}

-- Each name is registered once, for a detector of that name.
pub record IsRegistry (e : Engine) : Type 0 where
  pub once : IsMap e.detectors
  pub named : All (λ d. d.1.name ≡ d.0) e.detectors

insert-named :
    (d : Detector) (m : List (String × Detector))
    → All (λ d. d.1.name ≡ d.0) m
    → All (λ d. d.1.name ≡ d.0) (insert d.name d m)
unfolding insert
insert-named d [] h = (refl, tt)
insert-named d ((j, w) ∷ m) h = elim (Bool-cases (j == d.name)) [
  | inl same ↦ rw same (refl, h.1)
  | inr other ↦ rw other (h.0, insert-named d m h.1)
]

pub new_engine-IsRegistry : IsRegistry new_engine
unfolding new_engine
new_engine-IsRegistry = record { once = tt; named = tt }

pub register-IsRegistry : (e : Engine) (d : Detector) → IsRegistry e → IsRegistry (register e d)
unfolding register
register-IsRegistry e d v = record {
  once = insert-IsMap d.name d e.detectors v.once;
  named = insert-named d e.detectors v.named;
}

-- A registered detector answers under its name, in place of an earlier one of that name, and every
-- other name answers as before.
pub detect-register :
    (e : Engine) (d : Detector) (name input : String)
    → detect (register e d) name input
      ≡ (if d.name == name then d.detect input else detect e name input)
unfolding detect register
detect-register e d name input = ground (arith, lookup-insert d.name name d e.detectors)

-- Registering detectors, one after another and however they are named, leaves each name in the engine
-- once, for a detector of that name.
pub register_all-IsRegistry :
    (e : Engine) (ds : List Detector) → IsRegistry e → IsRegistry (foldl register e ds)
register_all-IsRegistry e [] v = v
register_all-IsRegistry e (d ∷ ds) v =
    register_all-IsRegistry (register e d) ds (register-IsRegistry e d v)
