-- ===== src/Storage/IpBlacklist/Threshold.antt =====
-- httpval/ip_blacklist.go over storage/memory.go: when an attacker is banned, and for how long.
use security_go.Shared.{
  ℕ, suc, Option-cases, sym, ap, length, Option, ◌∙◌, ◌+◌, ◌≤◌, ◌≡◌, refl, ap₂, Bool, true, false,
  String, List, [], ◌∷◌, some, Fallible, ok, leb, arith, All, eq_refl, if◌then◌else◌, ltb,
  Bool-cases, inl, inr,
}
use security_go.Shared.Assoc.{lookup, insert, lookup-insert}
use security_go.Shared.Time.{Instant, since}
use security_go.Storage.Memory.{is_before, Memory, Event, incr_event, memory_backend}
use security_go.Storage.IpBlacklist.{IpBlacklist, detect, ban, record_attack}

module _ (b : IpBlacklist) (ip : String) where
  -- The answers to attacks at the given times.
  pub attacks : Memory → List Instant → List (Fallible Bool)
  unfolding record_attack
  attacks m [] = []
  attacks m (now ∷ times) =
      let r = record_attack memory_backend b m now ip in r.0 ∷ attacks r.1 times

  -- The answers after `n` attacks: `true` from the attack on that reaches the threshold.
  abbrev pub answers : ℕ → List Instant → List (Fallible Bool)
  answers n [] = []
  answers n (now ∷ times) = ok (leb b.threshold (suc n)) ∷ answers (suc n) times

  abbrev pub counter : Instant → ℕ → Event
  counter start n = record { count = n; window_start = start; window = b.window }

  abbrev Counted : Instant → ℕ → Memory → Type 0
  Counted start n m = lookup ip m.events ≡ some (counter start n)

  ban-Counted :
      (m : Memory) (now start : Instant) (n : ℕ)
      → Counted start n m
      → ((ban memory_backend b m now ip).0 ≡ ok true)
        × Counted start n (ban memory_backend b m now ip).1
  unfolding ban memory_backend
  ban-Counted m now start n h = (refl, h)

  abbrev Answered : Instant → ℕ → Fallible Bool × Memory → Type 0
  Answered start n r = (r.0 ≡ ok (leb b.threshold n)) × Counted start n r.1

  Counted-Answered :
      (m : Memory) (now start : Instant) (n : ℕ)
      → Counted start n m
      → Answered start n
          (if leb b.threshold n then ban memory_backend b m now ip else (ok false, m))
  Counted-Answered m now start n h = ground (arith, ban-Counted m now start n h)

  insert-Counted :
      (m : Memory) (start : Instant) (n : ℕ)
      → Counted start n (record m { events = insert ip (counter start n) m.events })
  insert-Counted m start n = rw (lookup-insert ip ip (counter start n) m.events, eq_refl ip)

  record_attack-Answered :
      (m : Memory) (now start : Instant) (n : ℕ)
      → incr_event now b.window (lookup ip m.events) ≡ counter start n
      → Answered start n (record_attack memory_backend b m now ip)
  unfolding record_attack memory_backend
  record_attack-Answered m now start n h = rw h (
      Counted-Answered (record m { events = insert ip (counter start n) m.events }) now start n
        (insert-Counted m start n))

  pub incr_event-counted :
      (now start : Instant) (n : ℕ)
      → since now start ≤ b.window
      → incr_event now b.window (some (counter start n)) ≡ counter start (suc n)
  unfolding incr_event
  incr_event-counted now start n h = ground arith

  attacks-Counted :
      (m : Memory) (start : Instant) (n : ℕ) (times : List Instant)
      → Counted start n m
      → All (λ now. since now start ≤ b.window) times
      → attacks m times ≡ answers n times
  unfolding attacks
  attacks-Counted m start n [] h k = refl
  attacks-Counted m start n (now ∷ times) h k =
      let (reply, after) =
        record_attack-Answered m now start (suc n) (rw h (incr_event-counted now start n k.0)) in
      ap₂ ◌∷◌ reply
        (attacks-Counted (record_attack memory_backend b m now ip).1 start (suc n) times after k.1)

  banned_until :
      (m : Memory) (now : Instant)
      → (record_attack memory_backend b m now ip).0 ≡ ok true
      → lookup ip (record_attack memory_backend b m now ip).1.blocked ≡ some (now + b.ban_duration)
  unfolding record_attack memory_backend
  banned_until m now h =
      elim (Bool-cases (leb b.threshold (incr_event now b.window (lookup ip m.events)).count)) [
        | inl reached ↦
            rw reached (rw (lookup-insert ip ip (now + b.ban_duration) m.blocked, eq_refl ip))
        | inr below ↦ cc (rw below at h)
      ]

  unbanned :
      (m : Memory) (now : Instant)
      → (record_attack memory_backend b m now ip).0 ≡ ok false
      → lookup ip (record_attack memory_backend b m now ip).1.blocked ≡ lookup ip m.blocked
  unfolding record_attack memory_backend
  unbanned m now h =
      elim (Bool-cases (leb b.threshold (incr_event now b.window (lookup ip m.events)).count)) [
        | inl reached ↦ cc (rw reached at h)
        | inr below ↦ rw below refl
      ]

  pub detect-blocked :
      (m : Memory) (later until : Instant)
      → lookup ip m.blocked ≡ some until
      → (detect memory_backend b m later ip).detected ≡ ltb later until
  unfolding detect memory_backend
  detect-blocked m later until h = rw h (ground arith)

  -- The answer `true` means that `Detect` reports the address at every moment before the end of the
  -- ban, and not from its end on.
  pub detect-record_attack :
      (m : Memory) (now later : Instant)
      → (record_attack memory_backend b m now ip).0 ≡ ok true
      → (detect memory_backend b (record_attack memory_backend b m now ip).1 later ip).detected
        ≡ ltb later (now + b.ban_duration)
  detect-record_attack m now later h = detect-blocked _ later _ (banned_until m now h)

  -- The backend after attacks at the given times.
  unfoldable pub after : Memory → List Instant → Memory
  unfolding record_attack
  after m [] = m
  after m (now ∷ times) = after (record_attack memory_backend b m now ip).1 times

  abbrev pub last_of : Instant → List Instant → Instant
  last_of now [] = now
  last_of now (later ∷ times) = last_of later times

  -- What an attack leaves of the ban: a new one if the attack is answered true.
  record_attack-ban :
      (m : Memory) (now : Instant) (reached : Bool)
      → (record_attack memory_backend b m now ip).0 ≡ ok reached
      → lookup ip (record_attack memory_backend b m now ip).1.blocked
        ≡ (if reached then some (now + b.ban_duration) else lookup ip m.blocked)
  record_attack-ban m now true h = banned_until m now h
  record_attack-ban m now false h = unbanned m now h

  later_ban :
      (n : ℕ) (here old one two : Option Instant)
      → here ≡ (if leb b.threshold n then one else old)
      → (if leb b.threshold (suc n) then two else here)
        ≡ (if leb b.threshold (suc n) then two else old)
  later_ban n here old one two e = elim (Bool-cases (leb b.threshold (suc n))) [
    | inl reached ↦ rw reached refl
    | inr below ↦
        let before : leb b.threshold n ≡ false = ground arith in rw below (e ∙ rw before refl)
  ]

  -- The ban after the `n + 1 + …`-th attack: it runs from the last one, if that reaches the threshold.
  last_ban :
      (m : Memory) (start now : Instant) (n : ℕ) (times : List Instant) (old : Option Instant)
      → Counted start (suc n) m
      → All (λ now. since now start ≤ b.window) times
      → lookup ip m.blocked ≡ (if leb b.threshold (suc n) then some (now + b.ban_duration) else old)
      → lookup ip (after m times).blocked ≡ (
          if leb b.threshold (suc n + length times)
          then some (last_of now times + b.ban_duration)
          else old)
  unfolding after
  last_ban m start now n [] old h k e = let one : suc n + 0 ≡ suc n = omega arith in rw one e
  last_ban m start now n (later ∷ times) old h k e =
      let (reply, counted) =
        record_attack-Answered m later start (suc (suc n))
          (rw h (incr_event-counted later start (suc n) k.0)) in
      let moved : suc n + suc (length times) ≡ suc (suc n) + length times = omega arith in
      rw moved (
        last_ban (record_attack memory_backend b m later ip).1 start later (suc n) times old counted
          k.1
          (record_attack-ban m later (leb b.threshold (suc (suc n))) reply
            ∙ later_ban (suc n) (lookup ip m.blocked) old (some (now + b.ban_duration))
                (some (later + b.ban_duration)) e))

  -- `Detect` by what the backend holds of the address.
  detect-lookup :
      (m : Memory) (later : Instant)
      → (detect memory_backend b m later ip).detected ≡ is_before later (lookup ip m.blocked)
  unfolding detect memory_backend is_before
  detect-lookup m later = elim (Option-cases (lookup ip m.blocked)) [
    | inl missing ↦ rw missing refl
    | inr (until, found) ↦ rw found (ground arith)
  ]

  abbrev reached_by : List Instant → Bool
  reached_by times = leb b.threshold (length times)

  detect-after :
      (m : Memory) (start later : Instant) (times : List Instant)
      → lookup ip (after m (start ∷ times)).blocked ≡ (
          if reached_by (start ∷ times)
          then some (last_of start times + b.ban_duration)
          else lookup ip m.blocked)
      → (detect memory_backend b (after m (start ∷ times)) later ip).detected ≡ (
          if reached_by (start ∷ times)
          then ltb later (last_of start times + b.ban_duration)
          else (detect memory_backend b m later ip).detected)
  unfolding is_before
  detect-after m start later times e = elim (Bool-cases (reached_by (start ∷ times))) [
    | inl reached ↦
        rw reached
          (detect-lookup (after m (start ∷ times)) later ∙ ap (is_before later) (rw reached at e))
    | inr below ↦ rw below (
        detect-lookup (after m (start ∷ times)) later
        ∙ ap (is_before later) (rw below at e)
        ∙ sym (detect-lookup m later))
  ]

  -- The attacks from the first one of a window on, which opens the window where the address has no counter,
  -- or one whose window has elapsed: the n-th of them within the window is answered `true` exactly if n
  -- reaches the threshold. After them all, if they reach it, `Detect` reports the address until the end of
  -- a ban that begins with the last attack; if not, it answers as before the first.
  pub attacks-answers :
      (m : Memory) (start later : Instant) (times : List Instant)
      → incr_event start b.window (lookup ip m.events) ≡ counter start 1
      → All (λ now. since now start ≤ b.window) times
      → (attacks m (start ∷ times) ≡ answers 0 (start ∷ times))
        × ((detect memory_backend b (after m (start ∷ times)) later ip).detected ≡ (
            if leb b.threshold (length (start ∷ times))
            then ltb later (last_of start times + b.ban_duration)
            else (detect memory_backend b m later ip).detected))
  unfolding attacks after
  attacks-answers m start later times h k =
      let (reply, counted) = record_attack-Answered m start start 1 h in
      let one : suc (length times) ≡ suc 0 + length times = omega arith in
      (
        ap₂ ◌∷◌ reply (attacks-Counted _ start 1 times counted k),
        detect-after m start later times (
            rw one (
              last_ban (record_attack memory_backend b m start ip).1 start start 0 times
                (lookup ip m.blocked) counted k
                (record_attack-ban m start (leb b.threshold 1) reply))),
      )
