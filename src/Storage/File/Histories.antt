-- ===== src/Storage/File/Histories.antt =====
-- storage/file.go against storage/memory.go: the same counts, and no ban that memory would not have.
use text.Mathlib.Text.{◌==◌}
use security_go.Shared.{
  ◌≤◌, ◌<◌, ◌≡◌, refl, ap, subst, true, String, List, [], ◌∷◌, none, some, ok, arith, eq_iff,
  Bool-cases, Option-cases, Fallible, err, map, ◌∙◌, inl, inr, Bool, false, if◌then◌else◌,
}
use security_go.Shared.Assoc.{
  lookup, insert, retain, IsMap, lookup-insert, lookup-retain, insert-IsMap, retain-IsMap,
}
use security_go.Shared.Time.{Instant, Duration}
use security_go.Storage.{Call, incr, get, block, is_blocked, count, call, calls}
use security_go.Storage.Memory.{Memory, Event, memory_backend, new_memory}
use security_go.Storage.Memory.Reaping.{run as run_memory, requests, run-new_memory}
use security_go.Storage.File.Steps.{
  Refines, AllRefine, Step, asks, saves, reaps, run, memory_steps, IsLate, AllLate,
  memory_steps-IsTimed, memory_steps-HasWindows,
}
use security_go.Storage.File.Refinement.{
  Related, SameCount-mono, incr-Related, incr-count, live_count-same, block-Related, is_banned-le,
  kept-Related,
}
use security_go.Storage.File.{
  File, Record, Content, Json, Os, file_backend, new_file, auto_save, save_locked, saved_or_dirty,
  load, is_alive,
}

records-saved_or_dirty : (x : Fallible (Unit {0}) × File) → (saved_or_dirty x).records ≡ x.1.records
records-saved_or_dirty (ok _, f) = refl
records-saved_or_dirty (err e, f) = refl

-- Whatever fails in a save, the records that are over are deleted.
records-save_locked :
    (json : Json) (os : Os) (f : File) (now : Instant)
    → (save_locked json os f now).1.records ≡ retain (is_alive now) f.records
unfolding save_locked
records-save_locked json os f now =
    elim (Option-cases (json.marshal (map (λ r. r.1) (retain (is_alive now) f.records)))) [
      | inl bad ↦ rw (bad, save_locked) refl
      | inr (text, good) ↦ rw (good, save_locked) refl
    ]

record Sim (W : String → Duration) (t : Instant) (f : File) (m : Memory) : Type 0 where
  related :
      (k : String) → Related t (W k) (lookup k f.records) (lookup k m.events) (lookup k m.blocked)
  once : IsMap f.records

module _ (W : String → Duration) (positive : (k : String) → 0 < W k) where
  Sim-mono : (t now : Instant) (f : File) (m : Memory) → t ≤ now → Sim W t f m → Sim W now f m
  Sim-mono t now f m h s = record {
    related = λ k. (SameCount-mono t now (W k) _ _ h (s.related k).0, (s.related k).1);
    once = s.once;
  }

  insert-incr :
      (now : Instant) (k key : String) (r : Record) (e : Event) (f : File) (m : Memory)
      → Related now (W key) (some r) (some e) (lookup key m.blocked)
      → Sim W now f m
      → Related now
          (W k)
          (lookup k (insert key r f.records))
          (lookup k (insert key e m.events))
          (lookup k m.blocked)
  insert-incr now k key r e f m h s =
      rw (lookup-insert key k r f.records, lookup-insert key k e m.events)
        (elim (Bool-cases (key == k)) [
          | inl same ↦ rw same (
              subst (λ x. Related now (W x) (some r) (some e) (lookup x m.blocked))
                ((eq_iff key k).0 same) h)
          | inr other ↦ rw other (s.related k)
        ])

  insert-block :
      (now : Instant) (k key : String) (r : Record) (u : Instant) (f : File) (m : Memory)
      → Related now (W key) (some r) (lookup key m.events) (some u)
      → Sim W now f m
      → Related now
          (W k)
          (lookup k (insert key r f.records))
          (lookup k m.events)
          (lookup k (insert key u m.blocked))
  insert-block now k key r u f m h s =
      rw (lookup-insert key k r f.records, lookup-insert key k u m.blocked)
        (elim (Bool-cases (key == k)) [
          | inl same ↦ rw same (
              subst (λ x. Related now (W x) (some r) (lookup x m.events) (some u))
                ((eq_iff key k).0 same) h)
          | inr other ↦ rw other (s.related k)
        ])

  call-Sim :
      (json : Json) (os : Os) (f : File) (m : Memory) (now : Instant) (c : Call)
      → IsLate W now (asks c)
      → Sim W now f m
      → Refines (call (file_backend json os) f now c).0 (call memory_backend m now c).0
        × Sim W now (call (file_backend json os) f now c).1 (call memory_backend m now c).1
  unfolding call file_backend memory_backend
  call-Sim json os f m now (incr key w) (own, late) s =
      let here = rw (← own) at (s.related key) in
      (
        ap (λ n. count (ok n)) (incr-count now key w _ _ late here.0),
        record {
          related = λ k.
              insert-incr now k key _ _ f m (rw (← own) (incr-Related now key w _ _ _ late here)) s;
          once = insert-IsMap key _ f.records s.once;
        },
      )
  call-Sim json os f m now (get key) h s =
      (ap (λ n. count (ok n)) (live_count-same now (W key) _ _ (positive key) (s.related key).0), s)
  call-Sim json os f m now (block key d) h s = (
    refl,
    record {
      related = λ k.
          insert-block now k key _ _ f m (block-Related now key (W key) d _ _ _ (s.related key)) s;
      once = insert-IsMap key _ f.records s.once;
    },
  )
  call-Sim json os f m now (is_blocked key) h s = (is_banned-le now _ _ (s.related key).1, s)

  retain-Sim :
      (f f' : File) (m : Memory) (now : Instant)
      → f'.records ≡ retain (is_alive now) f.records
      → Sim W now f m
      → Sim W now f' m
  retain-Sim f f' m now e s = record {
    related = λ k.
        rw (e, lookup-retain (is_alive now) k f.records s.once)
          (kept-Related now (W k) _ _ _ (positive k) (s.related k));
    once = rw e (retain-IsMap (is_alive now) f.records s.once);
  }

  if-Sim :
      (t : Instant) (m : Memory) (b : Bool) (f g : File)
      → Sim W t f m
      → Sim W t g m
      → Sim W t (if b then f else g) m
  if-Sim t m true f g s s' = s
  if-Sim t m false f g s s' = s'

  auto_save-Sim :
      (json : Json) (os : Os) (f : File) (m : Memory) (now : Instant)
      → Sim W now f m
      → Sim W now (auto_save json os f now) m
  unfolding auto_save
  auto_save-Sim json os f m now s =
      let saved = save_locked json os f now in
      let e = records-saved_or_dirty saved ∙ records-save_locked json os f now in
      if-Sim now m f.dirty (saved_or_dirty saved) f (retain-Sim f (saved_or_dirty saved) m now e s)
        s

  run-Sim :
      (json : Json) (os : Os) (t : Instant) (f : File) (m : Memory) (steps : List (Instant × Step))
      → AllLate W t steps
      → Sim W t f m
      → AllRefine (run json os f steps) (calls memory_backend m (requests (memory_steps steps)))
  unfolding run memory_steps requests calls
  run-Sim json os t f m [] h s = tt
  run-Sim json os t f m ((now, asks c) ∷ steps) (timed, late, later) s =
      let (here, after) = call-Sim json os f m now c late (Sim-mono t now f m timed s) in
      (here, run-Sim json os now _ _ steps later after)
  run-Sim json os t f m ((now, saves saving) ∷ steps) (timed, late, later) s =
      run-Sim json os now _ m steps later
        (auto_save-Sim json saving f m now (Sim-mono t now f m timed s))
  run-Sim json os t f m ((now, reaps) ∷ steps) (timed, late, later) s =
      run-Sim json os now f m steps later (Sim-mono t now f m timed s)

-- A file backend that starts with no file answers a client as a new memory backend does: with the
-- same counts, and with no ban that memory does not have. (It may have lost a ban.) So it does
-- wherever the periodic saves of the one and the reaper's ticks of the other fall between the calls,
-- and whatever fails in a save. The clock must not go back, each counter must be used with one window
-- of its own, which is positive, and the clock must be further from the zero time than that.
pub run-new_file :
    (W : String → Duration) (json : Json) (os : Os) (temps : List (String × Content))
    (steps : List (Instant × Step))
    → ((k : String) → 0 < W k)
    → AllLate W 0 steps
    → AllRefine
        (run json os (new_file json (record { live = none; temps = temps })) steps)
        (run_memory new_memory (memory_steps steps))
unfolding new_file new_memory lookup load
run-new_file W json os temps steps positive late =
    rw
      (run-new_memory W (memory_steps steps) positive
        (memory_steps-IsTimed W 0 0 steps (omega arith) late)
        (memory_steps-HasWindows W 0 steps late))
      (run-Sim W positive json os 0 (new_file json (record { live = none; temps = temps }))
        new_memory steps late (record { related = λ k. (tt, tt); once = tt }))
