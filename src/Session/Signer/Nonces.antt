-- ===== src/Session/Signer/Nonces.antt =====
-- session/tamper.go over storage/memory.go: the nonces that are counted.
use Prim.Native.String.{◌++◌}
use text.Mathlib.Text.{◌==◌ as str_eq}
use security_go.Shared.{
  true_not_false, ◌+◌, ◌*◌, ◌≤◌, ◌<◌, ◌≡◌, refl, sym, ◌∙◌, ◌⊎◌, inl, inr, true, false, Bool, not,
  String, Option, some, none, ltb, arith, Bool-cases, Option-cases, eq_iff, eq_refl, subst,
}
use security_go.Shared.Assoc.{
  lookup, IsMap, kept, lookup-insert, lookup-retain, insert-IsMap, retain-IsMap,
}
use security_go.Shared.Time.{Instant, Duration}
use security_go.Storage.Memory.{
  Memory, Event, is_over, incr_event, incr, reap_once, memory_backend, new_memory,
}
use security_go.Session.Signer.{Packages, Signer, max_skew, use_nonce}

kept-pos :
    (keep : Event → Bool) (o : Option Event) (ev : Event)
    → ((x : Event) → o ≡ some x → 1 ≤ x.count)
    → kept keep o ≡ some ev
    → 1 ≤ ev.count
kept-pos keep none ev h e = cc
kept-pos keep (some x) ev h e = elim (Bool-cases (keep x)) [
  | inl yes_kept ↦ h ev (rw yes_kept at e)
  | inr dropped ↦ cc (rw dropped at e)
]

some_injective : {x y : Event} → some x ≡ some y → x ≡ y
some_injective e = cc

-- The counters stand under their keys once, and count from 1.
pub record IsCounting (m : Memory) : Type 0 where
  pub once : IsMap m.events
  pub counted : (key : String) (ev : Event) → lookup key m.events ≡ some ev → 1 ≤ ev.count

pub reap_once-IsCounting :
    (now : Instant) (m : Memory) → IsCounting m → IsCounting (reap_once m now)
unfolding reap_once
reap_once-IsCounting now m v = record {
  once = retain-IsMap _ m.events v.once;
  counted = λ key ev e.
      kept-pos (λ x. not (is_over now x.window x)) (lookup key m.events) ev (v.counted key)
        (sym (lookup-retain (λ x. not (is_over now x.window x)) key m.events v.once) ∙ e);
}

pub new_memory-IsCounting : IsCounting new_memory
unfolding new_memory lookup
new_memory-IsCounting = record { once = tt; counted = λ key ev e. cc }

module _ (p : Packages) (s : Signer) where
  abbrev window : Duration
  window = 2 * max_skew s

  -- From the moment `t` on the nonce is counted, or its time is over.
  pub Used : String → Instant → Instant → Memory → Type 0
  Used key t now m =
      ((ev : Event) × (lookup key m.events ≡ some ev)
        × (1 ≤ ev.count)
        × (t ≤ ev.window_start)
        × (ev.window ≡ window))
      ⊎ (t + window < now)

  incr_event_later :
      (t now : Instant) (ev : Event)
      → t ≤ now
      → 1 ≤ ev.count
      → t ≤ ev.window_start
      → (1 ≤ (incr_event now window (some ev)).count)
        × (t ≤ (incr_event now window (some ev)).window_start)
        × ((incr_event now window (some ev)).window ≡ window)
  unfolding incr_event
  incr_event_later t now ev h c start = elim (Bool-cases (is_over now window ev)) [
    | inl over ↦ rw over (omega arith, h, refl)
    | inr live ↦ rw live (omega arith, start, refl)
  ]

  pub Used-incr :
      (key k : String) (t now : Instant) (m : Memory)
      → t ≤ now
      → Used key t now m
      → Used key t now (incr m now k window).1
  unfolding Used incr incr_event
  Used-incr key k t now m h (inr over) = inr over
  Used-incr key k t now m h (inl (ev, e, c, start, w)) =
      let after = lookup-insert k key (incr_event now window (lookup k m.events)) m.events in
      elim (Bool-cases (str_eq k key)) [
        | inr other ↦ inl (ev, after ∙ rw other e, c, start, w)
        | inl same ↦
            let here : lookup k m.events ≡ some ev = rw ((eq_iff k key).0 same) e in
            let (count, from, size) = incr_event_later t now ev h c start in
            inl (incr_event now window (some ev), after ∙ rw (same, here) refl, count, from, size)
      ]

  pub Used-reap :
      (key : String) (t now : Instant) (m : Memory)
      → IsMap m.events
      → Used key t now m
      → Used key t now (reap_once m now)
  unfolding Used reap_once
  Used-reap key t now m v (inr over) = inr over
  Used-reap key t now m v (inl (ev, e, c, start, w)) =
      let after = lookup-retain (λ x. not (is_over now x.window x)) key m.events v in
      elim (Bool-cases (is_over now ev.window ev)) [
        | inl over ↦ inr (ground arith)
        | inr live ↦ inl (ev, after ∙ rw (e, live) refl, c, start, w)
      ]

  pub use_nonce-incr :
      (now : Instant) (nonce : String) (m : Memory)
      → (use_nonce p s (some memory_backend) now nonce m).1
        ≡ (incr m now ("sig:" ++ nonce) window).1
  unfolding use_nonce memory_backend incr
  use_nonce-incr now nonce m =
      elim (Bool-cases (ltb 1 (incr_event now window (lookup ("sig:" ++ nonce) m.events)).count)) [
        | inl again ↦ rw again refl
        | inr once ↦ rw once refl
      ]

  -- A nonce that was counted once is a replay within the window.
  use_nonce-replay :
      (now : Instant) (nonce : String) (m : Memory) (ev : Event)
      → lookup ("sig:" ++ nonce) m.events ≡ some ev
      → 1 ≤ ev.count
      → is_over now window ev ≡ false
      → (use_nonce p s (some memory_backend) now nonce m).0.detected ≡ true
  unfolding use_nonce memory_backend incr incr_event
  use_nonce-replay now nonce m ev e c live =
      let again : ltb 1 (ev.count + 1) ≡ true = ground arith in rw (e, live, again) refl

  incr_event-pos : (now : Instant) (o : Option Event) → 1 ≤ (incr_event now window o).count
  unfolding incr_event
  incr_event-pos now none = omega arith
  incr_event-pos now (some ev) = ground arith

  pub incr-IsCounting :
      (now : Instant) (k : String) (m : Memory) → IsCounting m → IsCounting (incr m now k window).1
  unfolding incr
  incr-IsCounting now k m v = record {
    once = insert-IsMap k _ m.events v.once;
    counted = λ key ev e.
        let q =
          sym (lookup-insert k key (incr_event now window (lookup k m.events)) m.events) ∙ e in
        elim (Bool-cases (str_eq k key)) [
          | inl same ↦
              let here : some (incr_event now window (lookup k m.events)) ≡ some ev =
                rw same at q in
              subst (λ (x : Event). 1 ≤ x.count) (some_injective here)
                (incr_event-pos now (lookup k m.events))
          | inr other ↦ v.counted key ev (rw other at q)
        ];
  }

  -- The nonce of a signature that is accepted is used from then on.
  pub Used-use_nonce :
      (now : Instant) (nonce : String) (m : Memory)
      → IsCounting m
      → (use_nonce p s (some memory_backend) now nonce m).0.detected ≡ false
      → Used ("sig:" ++ nonce) now now (use_nonce p s (some memory_backend) now nonce m).1
  unfolding Used incr incr_event
  Used-use_nonce now nonce m v clean =
      let key = "sig:" ++ nonce in
      let after = lookup-insert key key (incr_event now window (lookup key m.events)) m.events in
      rw (use_nonce-incr now nonce m) (elim (Option-cases (lookup key m.events)) [
        | inl new ↦ inl (
          record { count = 1; window_start = now; window = window },
          after ∙ rw (eq_refl key, new) refl,
          omega arith,
          omega arith,
          refl,
        )
        | inr (ev, e) ↦ elim (Bool-cases (is_over now window ev)) [
          | inl over ↦ inl (
            record { count = 1; window_start = now; window = window },
            after ∙ rw (eq_refl key, e, over) refl,
            omega arith,
            omega arith,
            refl,
          )
          | inr live ↦
              absurd
                (true_not_false (use_nonce-replay now nonce m ev e (v.counted key ev e) live) clean)
        ]
      ])

  pub Used-mono :
      (key : String) (t now later : Instant) (m : Memory)
      → now ≤ later
      → Used key t now m
      → Used key t later m
  unfolding Used
  Used-mono key t now later m h (inl u) = inl u
  Used-mono key t now later m h (inr over) = inr (omega arith)

  -- A used nonce is a replay while the signature is fresh.
  pub Used-replay :
      (nonce : String) (t later : Instant) (m : Memory)
      → later ≤ t + window
      → Used ("sig:" ++ nonce) t later m
      → (use_nonce p s (some memory_backend) later nonce m).0.detected ≡ true
  unfolding Used
  Used-replay nonce t later m early (inr over) = absurd (omega arith)
  Used-replay nonce t later m early (inl (ev, e, c, start, w)) =
      use_nonce-replay later nonce m ev e c (ground arith)
