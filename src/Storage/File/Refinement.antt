-- ===== src/Storage/File/Refinement.antt =====
-- storage/file.go against storage/memory.go: a record and what memory holds under its key.
use security_go.Shared.{
  ◌+◌, ◌≤◌, ◌<◌, ◌≡◌, refl, true, String, Option, none, some, arith, Bool-cases, inl, inr, ◌⊎◌,
  false,
}
use security_go.Shared.Assoc.{kept}
use security_go.Shared.Time.{Instant, Duration, since}
use security_go.Storage.Memory.{Event, incr_event, is_before, live_count as live_event}
use security_go.Storage.File.{
  Record, incr_record, block_record, is_banned, live_count, is_alive, record_window,
}

-- A record without a counter.
abbrev Blank : Record → Type 0
Blank r = (r.count ≡ 0) × (r.window ≡ 0) × (r.window_start ≡ 0)

-- A counter of the window `w` that is over.
abbrev Over : Instant → Duration → Event → Type 0
Over t w e = (e.window ≡ w) × (w < since t e.window_start)

-- The record has the counter, or that is over and the record was deleted, or was made anew by a ban.
abbrev pub SameCount : Instant → Duration → Option Record → Option Event → Type 0
SameCount t w none none = Unit
SameCount t w none (some e) = Over t w e
SameCount t w (some r) none = Blank r
SameCount t w (some r) (some e) =
    ((r.count ≡ e.count)
      × (r.window ≡ w)
      × (e.window ≡ w)
      × (r.window_start ≡ e.window_start)
      × (0 < e.window_start))
    ⊎ (Blank r × Over t w e)

abbrev pub BanLe : Option Record → Option Instant → Type 0
BanLe none o = Unit
BanLe (some r) none = r.block_until ≡ 0
BanLe (some r) (some until) = r.block_until ≤ until

abbrev pub Related : Instant → Duration → Option Record → Option Event → Option Instant → Type 0
Related t w r e o = SameCount t w r e × BanLe r o

pub SameCount-mono :
    (t now : Instant) (w : Duration) (r : Option Record) (e : Option Event)
    → t ≤ now
    → SameCount t w r e
    → SameCount now w r e
SameCount-mono t now w none none h s = tt
SameCount-mono t now w none (some e) h s = (s.0, omega arith)
SameCount-mono t now w (some r) none h s = s
SameCount-mono t now w (some r) (some e) h (inl same) = inl same
SameCount-mono t now w (some r) (some e) h (inr (blank, (own, over))) =
    inr (blank, (own, omega arith))

pub incr-Related :
    (now : Instant) (key : String) (w : Duration) (r : Option Record) (e : Option Event)
    (o : Option Instant)
    → w < since now 0
    → Related now w r e o
    → Related now w (some (incr_record now key w r)) (some (incr_event now w e)) o
unfolding incr_record incr_event
incr-Related now key w none none none h s = ground arith
incr-Related now key w none none (some u) h s = ground arith
incr-Related now key w none (some e) none h s = ground arith
incr-Related now key w none (some e) (some u) h s = ground arith
incr-Related now key w (some r) none none h s = ground arith
incr-Related now key w (some r) none (some u) h s = ground arith
incr-Related now key w (some r) (some e) none h s = ground arith
incr-Related now key w (some r) (some e) (some u) h s = ground arith

pub incr-count :
    (now : Instant) (key : String) (w : Duration) (r : Option Record) (e : Option Event)
    → w < since now 0
    → SameCount now w r e
    → (incr_record now key w r).count ≡ (incr_event now w e).count
unfolding incr_record incr_event
incr-count now key w none none h s = refl
incr-count now key w none (some e) h s = ground arith
incr-count now key w (some r) none h s = ground arith
incr-count now key w (some r) (some e) h s = ground arith

pub live_count-same :
    (now : Instant) (w : Duration) (r : Option Record) (e : Option Event)
    → 0 < w
    → SameCount now w r e
    → live_count now r ≡ live_event now e
unfolding live_count live_event
live_count-same now w none none p s = refl
live_count-same now w none (some e) p s = ground arith
live_count-same now w (some r) none p s = ground arith
live_count-same now w (some r) (some e) p s = ground arith

pub block-Related :
    (now : Instant) (key : String) (w d : Duration) (r : Option Record) (e : Option Event)
    (o : Option Instant)
    → Related now w r e o
    → Related now w (some (block_record now key d r)) e (some (now + d))
unfolding block_record
block-Related now key w d none none o s = ground arith
block-Related now key w d none (some e) o s = (inr ((refl, refl, refl), s.0), ground arith)
block-Related now key w d (some r) none o s = ground arith
block-Related now key w d (some r) (some e) o s = (s.0, ground arith)

pub is_banned-le :
    (now : Instant) (r : Option Record) (o : Option Instant)
    → BanLe r o
    → is_banned now r ≡ true
    → is_before now o ≡ true
unfolding is_banned is_before
is_banned-le now none o s h = cc
is_banned-le now (some r) none s h = ground arith
is_banned-le now (some r) (some u) s h = ground arith

-- A save deletes a record only when its counter is over.
pub kept-Related :
    (now : Instant) (w : Duration) (r : Option Record) (e : Option Event) (o : Option Instant)
    → 0 < w
    → Related now w r e o
    → Related now w (kept (is_alive now) r) e o
unfolding is_alive record_window
kept-Related now w none e o p s = s
kept-Related now w (some r) e o p s = elim (Bool-cases (is_alive now r)) [
  | inl alive ↦ rw alive s
  | inr dead ↦ rw dead (deleted now w r e p dead s.0, tt)
]
  where
    deleted :
        (now : Instant) (w : Duration) (r : Record) (e : Option Event)
        → 0 < w
        → is_alive now r ≡ false
        → SameCount now w (some r) e
        → SameCount now w none e
    deleted now w r none p dead s = tt
    deleted now w r (some e) p dead (inl same) = ground arith
    deleted now w r (some e) p dead (inr (blank, over)) = over
