-- ===== src/Storage/File/Steps.antt =====
-- storage/file.go and storage/memory.go: histories of the two backends, with the periodic save of the
-- one and the reaper of the other.
use security_go.Shared.{◌≤◌, ◌<◌, ◌≡◌, true, String, List, [], ◌∷◌, ok, arith}
use security_go.Shared.Time.{Instant, Duration, since}
use security_go.Storage.{Call, incr, get, block, is_blocked, Reply, blocked, call}
use security_go.Storage.Memory.Reaping.{IsTimed, HasWindow, HasWindows, Step as MemoryStep}
use security_go.Storage.File.{File, Json, Os, file_backend, auto_save}

-- The file backend's answer against memory's: the same, but a ban may be missing.
abbrev pub Refines : Reply → Reply → Type 0
Refines (blocked (ok x)) (blocked (ok y)) = x ≡ true → y ≡ true
Refines r s = r ≡ s

abbrev pub AllRefine : List Reply → List Reply → Type 0
AllRefine [] [] = Unit
AllRefine (r ∷ rs) (s ∷ ss) = Refines r s × AllRefine rs ss
AllRefine _ _ = ⊥

-- What happens to the two backends: a client's call, a tick of the periodic save, with what the
-- operating system does in it, or a tick of memory's reaper.
pub data Step : Type 0 where
  asks : Call → Step
  saves : Os → Step
  reaps : Step

-- The file backend's answers: the reaper is no part of it.
unfoldable pub run : Json → Os → File → List (Instant × Step) → List Reply
unfolding file_backend call
run json os f [] = []
run json os f ((now, asks c) ∷ steps) =
    let r = call (file_backend json os) f now c in r.0 ∷ run json os r.1 steps
run json os f ((now, saves saving) ∷ steps) = run json os (auto_save json saving f now) steps
run json os f ((now, reaps) ∷ steps) = run json os f steps

-- What happens to memory alone.
unfoldable pub memory_steps : List (Instant × Step) → List (Instant × MemoryStep)
memory_steps [] = []
memory_steps ((now, asks c) ∷ steps) = (now, MemoryStep.asks c) ∷ memory_steps steps
memory_steps ((now, saves saving) ∷ steps) = memory_steps steps
memory_steps ((now, reaps) ∷ steps) = (now, MemoryStep.reaps) ∷ memory_steps steps

-- Each counter is used with one window of its own, and the zero time lies further back than that.
abbrev pub IsLate : (String → Duration) → Instant → Step → Type 0
IsLate W now (asks (incr key window)) = (window ≡ W key) × (window < since now 0)
IsLate W now _ = Unit

-- The clock does not go back.
abbrev pub AllLate : (String → Duration) → Instant → List (Instant × Step) → Type 0
AllLate W t [] = Unit
AllLate W t ((now, s) ∷ steps) = (t ≤ now) × IsLate W now s × AllLate W now steps

pub memory_steps-IsTimed :
    (W : String → Duration) (t t' : Instant) (steps : List (Instant × Step))
    → t' ≤ t
    → AllLate W t steps
    → IsTimed t' (memory_steps steps)
unfolding memory_steps
memory_steps-IsTimed W t t' [] h late = tt
memory_steps-IsTimed W t t' ((now, asks c) ∷ steps) h (timed, own, later) =
    (omega arith, memory_steps-IsTimed W now now steps (omega arith) later)
memory_steps-IsTimed W t t' ((now, saves saving) ∷ steps) h (timed, own, later) =
    memory_steps-IsTimed W now t' steps (omega arith) later
memory_steps-IsTimed W t t' ((now, reaps) ∷ steps) h (timed, own, later) =
    (omega arith, memory_steps-IsTimed W now now steps (omega arith) later)

asks-HasWindow :
    (W : String → Duration) (now : Instant) (c : Call)
    → IsLate W now (asks c)
    → HasWindow W (MemoryStep.asks c)
asks-HasWindow W now (incr key w) (own, late) = own
asks-HasWindow W now (get key) late = tt
asks-HasWindow W now (block key d) late = tt
asks-HasWindow W now (is_blocked key) late = tt

pub memory_steps-HasWindows :
    (W : String → Duration) (t : Instant) (steps : List (Instant × Step))
    → AllLate W t steps
    → HasWindows W (memory_steps steps)
unfolding memory_steps
memory_steps-HasWindows W t [] late = tt
memory_steps-HasWindows W t ((now, asks c) ∷ steps) (timed, own, later) =
    (asks-HasWindow W now c own, memory_steps-HasWindows W now steps later)
memory_steps-HasWindows W t ((now, saves saving) ∷ steps) (timed, own, later) =
    memory_steps-HasWindows W now steps later
memory_steps-HasWindows W t ((now, reaps) ∷ steps) (timed, own, later) =
    (tt, memory_steps-HasWindows W now steps later)
