-- ===== src/Storage/Memory/Reaping.antt =====
-- storage/memory.go: whether a client can tell that the reaper ran.
use text.Mathlib.Text.{◌==◌}
use security_go.Shared.{
  ◌+◌, ◌≤◌, ◌<◌, ◌≡◌, refl, ap, ap₂, ◌∙◌, ok, not, String, List, [], ◌∷◌, Option, none, some, arith,
  ltb, ltb→lt, eq_iff, Bool-cases, inl, inr,
}
use security_go.Shared.Assoc.{
  lookup, insert, IsMap, kept, lookup-insert, lookup-retain, insert-IsMap, retain-IsMap,
}
use security_go.Shared.Time.{Instant, Duration, since}
use security_go.Storage.{Call, incr, get, block, is_blocked, Reply, count, blocked, call, calls}
use security_go.Storage.Memory.{
  Memory, Event, is_over, incr_event, live_count, is_before, reap_once, memory_backend, new_memory,
}

-- What happens to a backend: a client's call, or a tick of the reaper.
pub data Step : Type 0 where
  asks : Call → Step
  reaps : Step

unfoldable pub run : Memory → List (Instant × Step) → List Reply
unfolding memory_backend call
run m [] = []
run m ((now, asks c) ∷ steps) = let r = call memory_backend m now c in r.0 ∷ run r.1 steps
run m ((now, reaps) ∷ steps) = run (reap_once m now) steps

-- The same history without the reaper.
unfoldable pub requests : List (Instant × Step) → List (Instant × Call)
requests [] = []
requests ((now, asks c) ∷ steps) = (now, c) ∷ requests steps
requests ((now, reaps) ∷ steps) = requests steps

-- The clock does not go back.
abbrev pub IsTimed : Instant → List (Instant × Step) → Type 0
IsTimed t [] = Unit
IsTimed t ((now, s) ∷ steps) = (t ≤ now) × IsTimed now steps

-- Each counter is used with one window of its own, which is positive.
abbrev pub HasWindow : (String → Duration) → Step → Type 0
HasWindow W (asks (incr key window)) = window ≡ W key
HasWindow W _ = Unit

abbrev pub HasWindows : (String → Duration) → List (Instant × Step) → Type 0
HasWindows W [] = Unit
HasWindows W ((now, s) ∷ steps) = HasWindow W s × HasWindows W steps

-- The reaped counter is the other one, or is gone after its window.
abbrev SameCounter : Instant → Duration → Option Event → Option Event → Type 0
SameCounter t w none none = Unit
SameCounter t w none (some e) = (e.window ≡ w) × (w < since t e.window_start)
SameCounter t w (some d) none = ⊥
SameCounter t w (some d) (some e) = (d ≡ e) × (e.window ≡ w)

abbrev SameBan : Instant → Option Instant → Option Instant → Type 0
SameBan t none none = Unit
SameBan t none (some u) = u < t
SameBan t (some v) none = ⊥
SameBan t (some v) (some u) = v ≡ u

SameCounter-mono :
    (t now : Instant) (w : Duration) (a b : Option Event)
    → t ≤ now
    → SameCounter t w a b
    → SameCounter now w a b
SameCounter-mono t now w none none h s = tt
SameCounter-mono t now w none (some e) h s = (s.0, omega arith)
SameCounter-mono t now w (some d) (some e) h s = s
SameCounter-mono t now w (some d) none h s = s

SameBan-mono : (t now : Instant) (a b : Option Instant) → t ≤ now → SameBan t a b → SameBan now a b
SameBan-mono t now none none h s = tt
SameBan-mono t now none (some u) h s = omega arith
SameBan-mono t now (some v) (some u) h s = s
SameBan-mono t now (some v) none h s = s

kept-SameCounter :
    (now : Instant) (w : Duration) (a b : Option Event)
    → SameCounter now w a b
    → SameCounter now w (kept (λ ev. not (is_over now ev.window ev)) a) b
kept-SameCounter now w none b s = s
kept-SameCounter now w (some d) none s = ground arith
kept-SameCounter now w (some d) (some e) s = elim (Bool-cases (is_over now d.window d)) [
  | inl over ↦ rw over (s.1, ground arith)
  | inr live ↦ rw live s
]

kept-SameBan :
    (now : Instant) (a b : Option Instant)
    → SameBan now a b
    → SameBan now (kept (λ until. not (ltb until now)) a) b
kept-SameBan now none b s = s
kept-SameBan now (some v) none s = ground arith
kept-SameBan now (some v) (some u) s = elim (Bool-cases (ltb v now)) [
  | inl over ↦ rw over (rw (← s) (ltb→lt v now over))
  | inr live ↦ rw live s
]

incr_event-same :
    (now : Instant) (w : Duration) (a b : Option Event)
    → SameCounter now w a b
    → (incr_event now w a ≡ incr_event now w b) × ((incr_event now w b).window ≡ w)
unfolding incr_event
incr_event-same now w none none s = (refl, refl)
incr_event-same now w none (some e) s = ground arith
incr_event-same now w (some d) (some e) s = ground arith
incr_event-same now w (some d) none s = elim s [ ]

live_count-same :
    (now : Instant) (w : Duration) (a b : Option Event)
    → 0 < w
    → SameCounter now w a b
    → live_count now a ≡ live_count now b
unfolding live_count
live_count-same now w none none h s = refl
live_count-same now w none (some e) h s = ground arith
live_count-same now w (some d) (some e) h s = ground arith
live_count-same now w (some d) none h s = elim s [ ]

is_before-same :
    (now : Instant) (a b : Option Instant) → SameBan now a b → is_before now a ≡ is_before now b
unfolding is_before
is_before-same now none none s = refl
is_before-same now none (some u) s = ground arith
is_before-same now (some v) (some u) s = ground arith
is_before-same now (some v) none s = elim s [ ]

-- `m` is reaped, `n` is not; `W` gives each key its window.
record Sim (W : String → Duration) (t : Instant) (m n : Memory) : Type 0 where
  counters : (k : String) → SameCounter t (W k) (lookup k m.events) (lookup k n.events)
  bans : (k : String) → SameBan t (lookup k m.blocked) (lookup k n.blocked)
  events_map : IsMap m.events
  bans_map : IsMap m.blocked

module _ (W : String → Duration) (positive : (k : String) → 0 < W k) where
  Sim-mono : (t now : Instant) (m n : Memory) → t ≤ now → Sim W t m n → Sim W now m n
  Sim-mono t now m n h s = record {
    counters = λ k. SameCounter-mono t now (W k) _ _ h (s.counters k);
    bans = λ k. SameBan-mono t now _ _ h (s.bans k);
    events_map = s.events_map;
    bans_map = s.bans_map;
  }

  reap_once-Sim : (now : Instant) (m n : Memory) → Sim W now m n → Sim W now (reap_once m now) n
  unfolding reap_once
  reap_once-Sim now m n s = record {
    counters = λ k.
        rw (lookup-retain _ k m.events s.events_map)
          (kept-SameCounter now (W k) _ _ (s.counters k));
    bans = λ k. rw (lookup-retain _ k m.blocked s.bans_map) (kept-SameBan now _ _ (s.bans k));
    events_map = retain-IsMap _ m.events s.events_map;
    bans_map = retain-IsMap _ m.blocked s.bans_map;
  }

  -- The two backends give a call the same answer, and stay alike.
  abbrev Alike : Instant → Memory → Memory → Call → Type 0
  Alike now m n c =
      let p = call memory_backend m now c in
      let q = call memory_backend n now c in (p.0 ≡ q.0) × Sim W now p.1 q.1

  insert-SameCounter :
      (now : Instant) (k k' : String) (d e : Event) (a b : List (String × Event))
      → d ≡ e
      → e.window ≡ W k
      → SameCounter now (W k') (lookup k' a) (lookup k' b)
      → SameCounter now (W k') (lookup k' (insert k d a)) (lookup k' (insert k e b))
  insert-SameCounter now k k' d e a b p q s =
      rw (lookup-insert k k' d a, lookup-insert k k' e b)
        (elim (Bool-cases (k == k')) [
          | inl same ↦ rw same (p, q ∙ ap W ((eq_iff k k').0 same))
          | inr other ↦ rw other s
        ])

  insert-SameBan :
      (now u : Instant) (k k' : String) (a b : List (String × Instant))
      → SameBan now (lookup k' a) (lookup k' b)
      → SameBan now (lookup k' (insert k u a)) (lookup k' (insert k u b))
  insert-SameBan now u k k' a b s =
      rw (lookup-insert k k' u a, lookup-insert k k' u b)
        (elim (Bool-cases (k == k')) [ inl same ↦ rw same refl | inr other ↦ rw other s ])

  call-Alike :
      (now : Instant) (m n : Memory) (c : Call)
      → HasWindow W (asks c)
      → Sim W now m n
      → Alike now m n c
  unfolding call memory_backend
  call-Alike now m n (incr key window) h s =
      let (p, q) = incr_event-same now window _ _ (rw (← h) at (s.counters key)) in
      (
        ap (λ e. count (ok e.count)) p,
        record {
          counters =
              λ k. insert-SameCounter now key k _ _ m.events n.events p (q ∙ h) (s.counters k);
          bans = s.bans;
          events_map = insert-IsMap key _ m.events s.events_map;
          bans_map = s.bans_map;
        },
      )
  call-Alike now m n (get key) h s =
      (ap (λ n. count (ok n)) (live_count-same now (W key) _ _ (positive key) (s.counters key)), s)
  call-Alike now m n (block key duration) h s = (
    refl,
    record {
      counters = s.counters;
      bans = λ k. insert-SameBan now (now + duration) key k m.blocked n.blocked (s.bans k);
      events_map = s.events_map;
      bans_map = insert-IsMap key _ m.blocked s.bans_map;
    },
  )
  call-Alike now m n (is_blocked key) h s =
      (ap (λ b. blocked (ok b)) (is_before-same now _ _ (s.bans key)), s)

  run-Sim :
      (t : Instant) (m n : Memory) (steps : List (Instant × Step))
      → IsTimed t steps
      → HasWindows W steps
      → Sim W t m n
      → run m steps ≡ calls memory_backend n (requests steps)
  unfolding run requests calls
  run-Sim t m n [] h w s = refl
  run-Sim t m n ((now, asks c) ∷ steps) h w s =
      let (same, alike) = call-Alike now m n c w.0 (Sim-mono t now m n h.0 s) in
      ap₂ ◌∷◌ same (run-Sim now _ _ steps h.1 w.1 alike)
  run-Sim t m n ((now, reaps) ∷ steps) h w s =
      run-Sim now _ n steps h.1 w.1 (reap_once-Sim now m n (Sim-mono t now m n h.0 s))

-- The reaper cannot be observed: from an empty backend, whatever a client asks and wherever the
-- ticks of the reaper fall between its calls, the client gets the answers that it would get if the
-- reaper never ran. The clock must not go back, and each counter must be used with one window of
-- its own, which is positive.
pub run-new_memory :
    (W : String → Duration) (steps : List (Instant × Step))
    → ((k : String) → 0 < W k)
    → IsTimed 0 steps
    → HasWindows W steps
    → run new_memory steps ≡ calls memory_backend new_memory (requests steps)
unfolding new_memory lookup
run-new_memory W steps positive h w =
    run-Sim W positive 0 new_memory new_memory steps h w
      (record { counters = λ k. tt; bans = λ k. tt; events_map = tt; bans_map = tt })
