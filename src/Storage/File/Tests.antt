-- ===== src/Storage/File/Tests.antt =====
-- storage/file.go: examples, with a concrete encoding in place of package json.
use security_go.Shared.{
  ◌≡◌, ◌⊎◌, refl, ap, arith, true, false, String, List, [], ◌∷◌, Option, none, some,
}
use security_go.Shared.Assoc.{lookup}
use security_go.Shared.Codec.{strokes, count, encode, decode, count-strokes, decode-encode}
use security_go.Storage.{Call, call}
use security_go.Storage.File.{
  Record, File, Disk, Json, SysCall, Os, file_backend, new_file, write_file, save_calls,
  save_locked, is_alive,
}
use security_go.Shared.Time.{Instant}
use security_go.Storage.Memory.Reaping.{run as run_memory}
use security_go.Storage.Memory.{new_memory}
use security_go.Storage.File.Steps.{AllRefine, Step, asks, saves, reaps, run, memory_steps}
use security_go.Storage.File.Histories.{run-new_file}
use security_go.Storage.File.Indexed.{IsIndexed, call-IsIndexed}
use security_go.Storage.File.Saving.{save-atomic, reload-save_locked}
use security_go.Storage.File.Bans.{record_attack_lifts_ban}
use security_go.Storage.IpBlacklist.{IpBlacklist, detect, record_attack}

unfoldable fields : List Record → List String
fields [] = []
fields (r ∷ rs) =
    r.key
    ∷ strokes r.count
    ∷ strokes r.window_start
    ∷ strokes r.window
    ∷ strokes r.block_until
    ∷ fields rs

unfoldable records_of : List String → List Record
records_of (key ∷ n ∷ start ∷ window ∷ until ∷ rest) =
    record {
      key = key;
      count = count n;
      window_start = count start;
      window = count window;
      block_until = count until;
    }
    ∷ records_of rest
records_of _ = []

records_of-fields : (rs : List Record) → records_of (fields rs) ≡ rs
unfolding fields records_of
records_of-fields [] = refl
records_of-fields (r ∷ rs) =
    rw
      (
        count-strokes r.count,
        count-strokes r.window_start,
        count-strokes r.window,
        count-strokes r.block_until,
      )
      (ap (λ xs. r ∷ xs) (records_of-fields rs))

unfoldable json : Json
unfolding fields records_of
json = record {
  marshal = λ rs. some (encode (fields rs));
  unmarshal = λ text. some (records_of (decode text));
}

json_back :
    (rs : List Record) (text : String) → json.marshal rs ≡ some text → json.unmarshal text ≡ some rs
unfolding json
json_back rs text h =
    let same : encode (fields rs) ≡ text = cc in
    rw (← same, decode-encode (fields rs)) (ap some (records_of-fields rs))

abbrev never_fails : Os
never_fails = record { fails = λ c. none; temp_name = ".security-go-1.tmp"; part = "" }

abbrev full_disk : SysCall → Option String
full_disk SysCall.write = some "no space left on device"
full_disk _ = none

abbrev full : Os
full = record { fails = full_disk; temp_name = ".security-go-1.tmp"; part = "ne" }

-- The file of an earlier save, and the temporary one of a save that was cut off.
abbrev old_disk : Disk
old_disk = record {
  live = some (record { text = "old"; synced = true });
  temps = (".security-go-0.tmp", record { text = "o"; synced = false }) ∷ [];
}

-- An address that attacked five times is banned until the moment 100.
abbrev banned : Record
banned = record { key = "a"; count = 5; window_start = 1; window = 10; block_until = 100 }

abbrev one_ban : File
one_ban = record { records = ("a", banned) ∷ []; disk = old_disk; closed = false; dirty = true }

abbrev blacklist : IpBlacklist
blacklist = record { threshold = 5; window = 10; ban_duration = 99 }

one_ban-IsIndexed : IsIndexed one_ban.records
one_ban-IsIndexed = record { once = (tt, tt); keyed = (refl, tt) }

-- The ban has 80 moments to go when the sixth attack ends it.
record_attack_lifts_ban_example :
    (detect
      (file_backend json never_fails)
      blacklist
      (record_attack (file_backend json never_fails) blacklist one_ban 20 "a").1
      21
      "a").detected
    ≡ false
unfolding lookup
record_attack_lifts_ban_example =
    record_attack_lifts_ban json never_fails blacklist one_ban "a" banned 20 21 (omega arith) refl
      (omega arith)

reload-save_locked_example :
    lookup "a" (new_file json (save_locked json never_fails one_ban 20).1.disk).records
    ≡ some banned
unfolding lookup is_alive save_locked json write_file save_calls
reload-save_locked_example =
    reload-save_locked json never_fails one_ban 20 "a" json_back one_ban-IsIndexed refl

-- A save that is cut off after the fourth call: what is read is the old text.
save-atomic_example :
    (◌≡◌ {A = Option String} (some "old") (some "old"))
    ⊎ (◌≡◌ {A = Option String} (some "old") (some "new"))
unfolding write_file save_calls
save-atomic_example = save-atomic full "new" 4 old_disk (some "old") refl (λ synced. refl)

call-IsIndexed_example :
    IsIndexed (call (file_backend json never_fails) one_ban 20 (Call.incr "b" 10)).1.records
call-IsIndexed_example =
    call-IsIndexed json never_fails one_ban 20 (Call.incr "b" 10) one_ban-IsIndexed

-- The record of "a" is deleted by the save, and memory's counter by the reaper.
abbrev a_day : List (Instant × Step)
a_day =
    (20, asks (Call.incr "a" 10))
    ∷ (25, asks (Call.block "a" 5))
    ∷ (40, saves full)
    ∷ (41, reaps)
    ∷ (42, asks (Call.incr "a" 10))
    ∷ (43, asks (Call.is_blocked "a"))
    ∷ []

run-new_file_example :
    AllRefine
      (run json never_fails (new_file json (record { live = none; temps = [] })) a_day)
      (run_memory new_memory (memory_steps a_day))
run-new_file_example =
    run-new_file (λ k. 10) json never_fails [] a_day (λ k. omega arith)
      (
        omega arith,
        (refl, omega arith),
        (
          omega arith,
          tt,
          (
            omega arith,
            tt,
            (omega arith, tt, (omega arith, (refl, omega arith), (omega arith, tt, tt))),
          ),
        ),
      )
