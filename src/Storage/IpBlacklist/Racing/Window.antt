-- ===== src/Storage/IpBlacklist/Racing/Window.antt =====
-- httpval/ip_blacklist.go over storage/memory.go: what the calls of attacks keep within one window.
use text.Mathlib.Text.{◌==◌ as str_eq}
use security_go.Shared.{
  ℕ, zero, suc, ◌+◌, ◌≤◌, ◌<◌, ◌≡◌, ◌⊎◌, refl, sym, ap, subst, ◌∙◌, min, Bool, false, String, List,
  Option, none, some, leb, leb→le, arith, Bool-cases, inl, inr, eq_iff, eq_refl,
}
use security_go.Shared.Assoc.{lookup, insert, lookup-insert}
use security_go.Shared.Time.{Instant}
use security_go.Storage.Memory.{Memory, Event, incr_event, memory_backend}
use security_go.Storage.IpBlacklist.{IpBlacklist}
use security_go.Storage.IpBlacklist.Threshold.{counter, incr_event-counted}
use security_go.Storage.IpBlacklist.Racing.{
  Attack, arrives, reaches, returns, after_incr, after_block, next_call, Within,
}
use security_go.Storage.IpBlacklist.Racing.Counts.{
  is_counted, is_waiting, is_spared, bit, weight, count_of,
}

module _ (ip : String) (b : IpBlacklist) (begin : Instant) (spared : ℕ)
    (h : b.threshold ≡ suc spared) where
  abbrev pub opened : Instant → ℕ → Option Event
  opened start zero = none
  opened start (suc k) = some (counter b ip start (suc k))

  abbrev pub Banned : Memory → Type 0
  Banned m =
      (until : Instant) × (lookup ip m.blocked ≡ some until) × (begin + b.ban_duration ≤ until)

  -- `k` attacks are counted, `p` of them are spared and `w` are about to ban.
  pub record Inv (k p w : ℕ) (m : Memory) : Type 0 where
    pub start : Instant
    pub after : begin ≤ start
    pub counted : lookup ip m.events ≡ opened start k
    pub fair : p ≡ min k spared
    pub punished : (k ≤ spared) ⊎ ((0 < w) ⊎ Banned m)

  counted_next :
      (now : Instant) (k p w : ℕ) (m : Memory)
      → Within b begin now
      → Inv k p w m
      → (start : Instant) × (begin ≤ start)
        × (incr_event now b.window (lookup ip m.events) ≡ counter b ip start (suc k))
  unfolding incr_event
  counted_next now zero p w m (early, late) i = (now, early, rw (i.counted, incr_event) refl)
  counted_next now (suc k) p w m (early, late) i = (
    i.start,
    i.after,
    ap (incr_event now b.window) i.counted
        ∙ incr_event-counted b ip now i.start (suc k) (omega (arith, i.after)),
  )

  stored : {V : Type 0} (v : V) (m : List (String × V)) → lookup ip (insert ip v m) ≡ some v
  stored v m = lookup-insert ip ip v m ∙ rw (eq_refl ip) refl

  few' : (k : ℕ) → leb (suc spared) (suc k) ≡ false → suc k ≤ spared
  few' k below = ground arith

  few : (k p : ℕ) → leb (suc spared) (suc k) ≡ false → p ≡ min k spared → p + 1 ≡ min (suc k) spared
  few k p below e = omega (arith, few' k below)

  -- An attack is counted.
  incr-Inv :
      (now : Instant) (k p w : ℕ) (m : Memory)
      → Within b begin now
      → Inv k p w m
      → let q = next_call memory_backend b now ip arrives m in
        Inv (suc k) (p + bit (is_spared q.0)) (w + bit (is_waiting q.0)) q.1
  unfolding next_call after_incr memory_backend
  incr-Inv now k p w m in_time i =
      let (start, after, e) = counted_next now k p w m in_time i in
      rw (e, h)
        (elim (Bool-cases (leb (suc spared) (suc k))) [
          | inl reached ↦ rw reached (record {
            start = start;
            after = after;
            counted = stored (counter b ip start (suc k)) m.events;
            fair = omega (arith, leb→le (suc spared) (suc k) reached, i.fair);
            punished = inr (inl (omega arith));
          })
          | inr below ↦ rw below (record {
            start = start;
            after = after;
            counted = stored (counter b ip start (suc k)) m.events;
            fair = few k p below i.fair;
            punished = inl (few' k below);
          })
        ])

  -- An attack bans.
  block-Inv :
      (now : Instant) (k p w w' : ℕ) (m : Memory)
      → Within b begin now
      → Inv k p w m
      → Inv k p w' (next_call memory_backend b now ip reaches m).1
  unfolding next_call after_block memory_backend
  block-Inv now k p w w' m (early, late) i = record {
    start = i.start;
    after = i.after;
    counted = i.counted;
    fair = i.fair;
    punished =
        inr (inr (now + b.ban_duration, stored (now + b.ban_duration) m.blocked, omega arith));
  }

  -- The invariant of all the attacks.
  abbrev pub InvAll : List (String × Attack) → Memory → Type 0
  InvAll qs m =
      Inv (count_of ip is_counted qs) (count_of ip is_spared qs) (count_of ip is_waiting qs) m

  -- An attack from another address leaves what the backend holds for this one.
  other-Inv :
      (now : Instant) (j : String) (a : Attack) (k p w : ℕ) (m : Memory)
      → str_eq j ip ≡ false
      → Inv k p w m
      → Inv k p w (next_call memory_backend b now j a m).1
  unfolding next_call memory_backend
  other-Inv now j arrives k p w m differs i = record {
    start = i.start;
    after = i.after;
    counted = lookup-insert j ip _ m.events ∙ rw differs i.counted;
    fair = i.fair;
    punished = i.punished;
  }
  other-Inv now j reaches k p w m differs i = record {
    start = i.start;
    after = i.after;
    counted = i.counted;
    fair = i.fair;
    punished = elim i.punished [
      | inl few ↦ inl few
      | inr (inl waits) ↦ inr (inl waits)
      | inr (inr (until, banned, long)) ↦
          inr (inr (until, lookup-insert j ip _ m.blocked ∙ rw differs banned, long))
    ];
  }
  other-Inv now j (returns x) k p w m differs i = i

  Inv-eq :
      (k p w k' p' w' : ℕ) (m : Memory) → k' ≡ k → p' ≡ p → w' ≡ w → Inv k p w m → Inv k' p' w' m
  Inv-eq k p w k' p' w' m e f g i = rw (e, f, g) i

  counted_once :
      (now : Instant) (m : Memory)
      → bit (is_counted (next_call memory_backend b now ip arrives m).0) ≡ 1
  unfolding next_call after_incr memory_backend
  counted_once now m =
      elim (Bool-cases (leb b.threshold (incr_event now b.window (lookup ip m.events)).count)) [
        | inl reached ↦ rw reached refl
        | inr below ↦ rw below refl
      ]

  -- An attack from the address makes its next call.
  own-Inv :
      (now : Instant) (a : Attack) (qs qs' : List (String × Attack)) (m : Memory)
      → Within b begin now
      → ((f : Attack → Bool)
          → count_of ip f qs' + bit (f a)
            ≡ count_of ip f qs + bit (f (next_call memory_backend b now ip a m).0))
      → InvAll qs m
      → InvAll qs' (next_call memory_backend b now ip a m).1
  unfolding next_call after_block memory_backend
  own-Inv now arrives qs qs' m in_time counts i =
      Inv-eq _ _ _ _ _ _ _ (omega (arith, counts is_counted, counted_once now m))
        (omega (arith, counts is_spared)) (omega (arith, counts is_waiting))
        (incr-Inv now (count_of ip is_counted qs) (count_of ip is_spared qs)
          (count_of ip is_waiting qs) m in_time i)
  own-Inv now reaches qs qs' m in_time counts i =
      Inv-eq _ _ _ _ _ _ _ (omega (arith, counts is_counted)) (omega (arith, counts is_spared)) refl
        (block-Inv now (count_of ip is_counted qs) (count_of ip is_spared qs)
          (count_of ip is_waiting qs) (count_of ip is_waiting qs') m in_time i)
  own-Inv now (returns x) qs qs' m in_time counts i =
      Inv-eq _ _ _ _ _ _ _ (omega (arith, counts is_counted)) (omega (arith, counts is_spared))
        (omega (arith, counts is_waiting)) i

  -- How the numbers change when an attack from `j` makes its next call.
  abbrev pub Tallies :
      Instant → String → Attack → Memory → List (String × Attack) → List (String × Attack) → Type 0
  Tallies now j a m qs qs' =
      (f : Attack → Bool)
      → count_of ip f qs' + weight ip f (j, a)
        ≡ count_of ip f qs + weight ip f (j, (next_call memory_backend b now j a m).0)

  own_counts :
      (now : Instant) (a : Attack) (m : Memory) (qs qs' : List (String × Attack))
      → Tallies now ip a m qs qs'
      → (f : Attack → Bool)
      → count_of ip f qs' + bit (f a)
        ≡ count_of ip f qs + bit (f (next_call memory_backend b now ip a m).0)
  own_counts now a m qs qs' counts f = rw (eq_refl ip) at (counts f)

  other_counts :
      (now : Instant) (j : String) (a : Attack) (m : Memory) (qs qs' : List (String × Attack))
      → str_eq j ip ≡ false
      → Tallies now j a m qs qs'
      → (f : Attack → Bool) → count_of ip f qs' ≡ count_of ip f qs
  other_counts now j a m qs qs' differs counts f = omega (arith, (rw differs at (counts f)))

  pub change-Inv :
      (now : Instant) (j : String) (a : Attack) (qs qs' : List (String × Attack)) (m : Memory)
      → Within b begin now
      → Tallies now j a m qs qs'
      → InvAll qs m
      → InvAll qs' (next_call memory_backend b now j a m).1
  change-Inv now j a qs qs' m in_time counts i = elim (Bool-cases (str_eq j ip)) [
    | inl same ↦
        let e = (eq_iff j ip).0 same in
        subst (λ x. InvAll qs' (next_call memory_backend b now x a m).1) (sym e)
          (own-Inv now a qs qs' m in_time
            (own_counts now a m qs qs' (subst (λ x. Tallies now x a m qs qs') e counts)) i)
    | inr differs ↦
        let c = other_counts now j a m qs qs' differs counts in
        Inv-eq _ _ _ _ _ _ _ (c is_counted) (c is_spared) (c is_waiting) (
          other-Inv now j a (count_of ip is_counted qs) (count_of ip is_spared qs)
            (count_of ip is_waiting qs) m differs i)
  ]
