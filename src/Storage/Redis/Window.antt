-- ===== src/Storage/Redis/Window.antt =====
-- storage/redis/redis.go: the window of a counter is fixed by its first increment.
use security_go.Shared.{
  ℕ, ◌+◌, ◌*◌, ◌/◌, ◌≤◌, ◌<◌, ◌≡◌, refl, ap₂, ◌∙◌, true, false, String, List, [], ◌∷◌, Option, none,
  some, Fallible, ok, leb, arith, ◌==◌, if◌then◌else◌,
}
use security_go.Shared.Time.{Instant, Duration}
use security_go.Storage.Redis.{Server, millisecond, start_window, incr_window_script, incr}

-- A key's number, and the time at which it is gone, if there is one.
pub record Counter : Type 0 where
  pub value : ℕ
  pub until : Option Instant

abbrev pub value_of : Option Counter → ℕ
value_of none = 0
value_of (some c) = c.value

abbrev pub until_of : Option Counter → Option Instant
until_of none = none
until_of (some c) = c.until

-- What is left of an entry at a moment.
abbrev pub live : Instant → Option Counter → Option Counter
live now none = none
live now (some c) = elim c.until [ none ↦ some c | some t ↦ if leb t now then none else some c ]

abbrev pub counter : ℕ → Option Instant → Option Counter
counter n t = some (record { value = n; until = t })

-- The documented behaviour of the commands, while the server answers: `at` is what it holds under a key.
-- INCR adds one to the number, 0 if there is none, and keeps the expiry; PEXPIRE sets the expiry; a key is
-- gone from its expiry on.
pub record Laws {S : Type 0} (server : Server S) : Type 0 where
  pub at : S → Instant → String → Option Counter
  pub incr_key-answers :
      (s : S) (now : Instant) (key : String)
      → (server.incr_key s now key).0 ≡ ok (value_of (at s now key) + 1)
  pub at-incr_key :
      (s : S) (now : Instant) (key : String)
      → at (server.incr_key s now key).1 now key
        ≡ counter (value_of (at s now key) + 1) (until_of (at s now key))
  pub pexpire-answers :
      (s : S) (now : Instant) (key : String) (ms : ℕ)
      → ((c : Counter) × (at s now key ≡ some c))
      → (server.pexpire s now key ms).0 ≡ ok tt
  pub at-pexpire :
      (s : S) (now : Instant) (key : String) (ms n : ℕ) (t : Option Instant)
      → at s now key ≡ counter n t
      → at (server.pexpire s now key ms).1 now key
        ≡ live now (counter n (some (now + ms * millisecond)))
  pub at_later :
      (s : S) (now later : Instant) (key : String)
      → now ≤ later
      → at s later key ≡ live later (at s now key)

module _ {S : Type 0} (server : Server S) (laws : Laws server) (key : String)
    (window : Duration) where
  abbrev ends : Instant → Instant
  ends start = start + window / millisecond * millisecond

  -- The first increment.
  incr_first :
      (s : S) (now : Instant)
      → millisecond ≤ window
      → laws.at s now key ≡ none
      → ((incr server s now key window).0 ≡ ok 1)
        × (laws.at (incr server s now key window).1 now key ≡ counter 1 (some (ends now)))
  unfolding incr incr_window_script start_window
  incr_first s now wide new =
      let s' = (server.incr_key s now key).1 in
      let answers : (server.incr_key s now key).0 ≡ ok 1 =
        laws.incr_key-answers s now key ∙ rw new refl in
      let counted : laws.at s' now key ≡ counter 1 none =
        laws.at-incr_key s now key ∙ rw new refl in
      let expires = laws.pexpire-answers s' now key (window / millisecond) (_, counted) in
      let later : leb (ends now) now ≡ false = ground arith in
      (
        rw (answers, incr_window_script, expires) refl,
        rw (answers, incr_window_script)
            (laws.at-pexpire s' now key (window / millisecond) 1 none counted ∙ rw later refl),
      )

  -- An increment within the window.
  incr_next :
      (s : S) (now : Instant) (n : ℕ) (until : Instant)
      → 0 < n
      → laws.at s now key ≡ counter n (some until)
      → ((incr server s now key window).0 ≡ ok (n + 1))
        × (laws.at (incr server s now key window).1 now key ≡ counter (n + 1) (some until))
  unfolding incr incr_window_script start_window
  incr_next s now n until positive e =
      let answers : (server.incr_key s now key).0 ≡ ok (n + 1) =
        laws.incr_key-answers s now key ∙ rw e refl in
      let again : (n + 1 == 1) ≡ false = ground arith in
      (
        rw (answers, incr_window_script, again) refl,
        rw (answers, incr_window_script, again) (laws.at-incr_key s now key ∙ rw e refl),
      )

  -- The clock goes from `now` over the times to `later`, all of them before `until`.
  abbrev pub IsWithin : Instant → List Instant → Instant → Type 0
  IsWithin now [] until = Unit
  IsWithin now (t ∷ ts) until = (now ≤ t) × (t < until) × IsWithin t ts until

  -- Increments at these times: the answers and the state.
  abbrev pub incrs : S → List Instant → List (Fallible ℕ) × S
  incrs s [] = ([], s)
  incrs s (now ∷ times) =
      let r = incr server s now key window in let rest = incrs r.1 times in (r.0 ∷ rest.0, rest.1)

  -- The numbers after `n`, as many as there are times.
  abbrev pub counts : ℕ → List Instant → List (Fallible ℕ)
  counts n [] = []
  counts n (t ∷ ts) = ok (n + 1) ∷ counts (n + 1) ts

  -- Increments within the window count on, and leave its end as it is.
  incrs_next :
      (s : S) (now : Instant) (n : ℕ) (until : Instant) (times : List Instant)
      → 0 < n
      → laws.at s now key ≡ counter n (some until)
      → now < until
      → IsWithin now times until
      → ((incrs s times).0 ≡ counts (n) times)
        × ((later : Instant) × (m : ℕ) × (later < until)
            × (laws.at (incrs s times).1 later key ≡ counter m (some until)))
  incrs_next s now n until [] positive e early within = (refl, (now, n, early, e))
  incrs_next s now n until (t ∷ ts) positive e early (order, before, within) =
      let alive : leb until t ≡ false = ground arith in
      let more : 0 < n + 1 = omega arith in
      let there = laws.at_later s now t key order ∙ rw (e, alive) refl in
      let (answer, after) = incr_next s t n until positive there in
      let (answers, rest) =
        incrs_next (incr server s t key window).1 t (n + 1) until ts more after before within in
      (ap₂ ◌∷◌ answer answers, rest)

  -- The window of a counter does not slide: the increments of a new key, each before the end of the window
  -- that the first of them started, count 1, 2, 3 and so on, and the first one from that end on counts 1
  -- again. The window has a millisecond at least, of which it counts whole ones; the server answers, and
  -- its commands are as documented.
  pub incr-window :
      (s : S) (start after : Instant) (times : List Instant)
      → millisecond ≤ window
      → laws.at s start key ≡ none
      → IsWithin start times (ends start)
      → ends start ≤ after
      → ((incrs s (start ∷ times)).0 ≡ counts 0 (start ∷ times))
        × ((incr server (incrs s (start ∷ times)).1 after key window).0 ≡ ok 1)
  incr-window s start after times wide new within over =
      let (answer, started) = incr_first s start wide new in
      let (answers, (later, m, early, e)) =
        incrs_next (incr server s start key window).1 start 1 (ends start) times (omega arith)
          started (ground arith) within in
      let gone : leb (ends start) after ≡ true = ground arith in
      let empty =
        laws.at_later (incrs s (start ∷ times)).1 later after key (omega arith)
        ∙ rw (e, gone) refl in
      (ap₂ ◌∷◌ answer answers, (incr_first (incrs s (start ∷ times)).1 after wide empty).0)
