-- ===== src/Storage/Redis/Tests.antt =====
-- storage/redis/redis.go: an example of a server, and of its counters.
use text.Mathlib.Text.{◌==◌}
use security_go.Shared.{
  ℕ, ◌+◌, ◌*◌, ◌≤◌, ◌≡◌, refl, inl, inr, true, String, List, [], ◌∷◌, Option, none, some, ok, leb,
  arith, Bool-cases, eq_refl, if◌then◌else◌,
}
use security_go.Shared.Time.{Instant, second}
use security_go.Storage.Redis.{Server, millisecond, incr}
use security_go.Storage.Redis.Window.{
  Counter, Laws, value_of, until_of, live, counter, incrs, counts, incr-window,
}

abbrev Keys : Type 0
Keys = String → Option Counter

abbrev expiring : Instant → Option Counter → Option Counter
expiring until none = none
expiring until (some c) = counter c.value (some until)

abbrev assign : String → Option Counter → Keys → Keys
assign key c s j = if key == j then c else s j

abbrev added : Option Counter → Option Counter
added c = counter (value_of c + 1) (until_of c)

abbrev replica : Server Keys
replica = record {
  incr_key =
      λ s now key. (ok (value_of (live now (s key)) + 1), assign key (added (live now (s key))) s);
  pexpire =
      λ s now key ms. (ok tt, assign key (expiring (now + ms * millisecond) (live now (s key))) s);
  get = λ s now key. ok (elim (live now (s key)) [ none ↦ none | some c ↦ some c.value ]);
  set = λ s now key value expiry. (ok tt, assign key (counter 1 (some (now + expiry))) s);
  exists = λ s now key. ok (elim (live now (s key)) [ none ↦ 0 | some c ↦ 1 ]);
  close = λ s now. (ok tt, s);
}

added_once :
    (now : Instant) (v : ℕ) (u : Option Instant)
    → live now (added (live now (counter v u))) ≡ added (live now (counter v u))
added_once now v none = refl
added_once now v (some t) = elim (Bool-cases (leb t now)) [
  | inl gone ↦ rw gone refl
  | inr here ↦ rw (here, here) refl
]

live-added :
    (now : Instant) (o : Option Counter) → live now (added (live now o)) ≡ added (live now o)
live-added now none = refl
live-added now (some c) = added_once now c.value c.until

live_twice :
    (now later : Instant) (v : ℕ) (u : Option Instant)
    → now ≤ later
    → live later (counter v u) ≡ live later (live now (counter v u))
live_twice now later v none h = refl
live_twice now later v (some t) h = elim (Bool-cases (leb t now)) [
  | inl gone ↦ let gone_later : leb t later ≡ true = ground arith in rw (gone, gone_later) refl
  | inr here ↦ rw here refl
]

live-live :
    (now later : Instant) (o : Option Counter)
    → now ≤ later
    → live later o ≡ live later (live now o)
live-live now later none h = refl
live-live now later (some c) h = live_twice now later c.value c.until h

laws : Laws replica
laws = record {
  at = λ s now key. live now (s key);
  incr_key-answers = λ s now key. refl;
  at-incr_key = λ s now key. rw (eq_refl key) (live-added now (s key));
  pexpire-answers = λ s now key ms c. refl;
  at-pexpire = λ s now key ms n t e. rw (eq_refl key, e) refl;
  at_later = λ s now later key h. live-live now later (s key) h;
}

abbrev empty : Keys
empty key = none

abbrev second_one : List Instant
second_one = 2 * second ∷ []

incr-window_example :
    ((incrs replica laws "k" (2 * second) empty (second ∷ second_one)).0
      ≡ counts replica laws "k" (2 * second) 0 (second ∷ second_one))
    × ((incr replica
          (incrs replica laws "k" (2 * second) empty (second ∷ second_one)).1
          (3 * second)
          "k"
          (2 * second)).0
        ≡ ok 1)
unfolding laws
incr-window_example =
    incr-window replica laws "k" (2 * second) empty second (3 * second) second_one (omega arith)
      refl (omega arith, omega arith, tt) (omega arith)
