-- ===== src/Storage/File.antt =====
-- storage/file.go: counters and bans in one record for each key, saved to a JSON file.
--
-- Package encoding/json is an argument. The operating system is the list of calls that a save makes,
-- each of which may fail, and their effect on the live file and on the temporary ones. A file's text
-- is safe from a power cut once the file is synced.
pub mod Indexed
pub mod Writing
pub mod Saving
pub mod Bans
pub mod Refinement
pub mod Steps
pub mod Histories
mod Tests
use security_go.Shared.{
  ℕ, ◌+◌, ◌*◌, Bool, true, false, not, ◌&&◌, ◌||◌, String, List, [], ◌∷◌, Option, none, some,
  Fallible, ok, err, ltb, leb, ◌==◌, if◌then◌else◌, map, foldl,
}
use security_go.Shared.Assoc.{lookup, insert, erase, retain}
use security_go.Shared.Time.{Instant, Duration, since, minute}
use security_go.Storage.{Backend}

pub record Record : Type 0 where
  pub key : String
  pub count : ℕ
  pub window_start : Instant
  pub window : Duration
  pub block_until : Instant

-- A file's text, and whether it survives a power cut.
pub record Content : Type 0 where
  pub text : String
  pub synced : Bool

-- The file at the backend's path, and the temporary files beside it by their names: that of a save
-- under way, and those that saves left behind.
pub record Disk : Type 0 where
  pub live : Option Content
  pub temps : List (String × Content)

abbrev pub live_text : Option Content → Option String
live_text none = none
live_text (some c) = some c.text

pub record File : Type 0 where
  pub records : List (String × Record)
  pub disk : Disk
  pub closed : Bool
  pub dirty : Bool

-- Package encoding/json on lists of records; `none` is an error.
pub record Json : Type 0 where
  pub marshal : List Record → Option String
  pub unmarshal : String → Option (List Record)

load : Json → Option String → List Record
load json none = []
load json (some text) = elim (json.unmarshal text) [ some loaded ↦ loaded | none ↦ [] ]

abbrev add_record : List (String × Record) → Record → List (String × Record)
add_record records r = insert r.key r records

unfoldable pub new_file : Json → Disk → File
unfolding load insert
new_file json disk = record {
  records = foldl add_record [] (load json (live_text disk.live));
  disk = disk;
  closed = false;
  dirty = false;
}

unfoldable pub incr_record : Instant → String → Duration → Option Record → Record
incr_record now key window none = record {
  key = key;
  count = 1;
  window_start = now;
  window = window;
  block_until = 0;
}
incr_record now key window (some r) =
    if ltb window (since now r.window_start)
    then record { key = key; count = 1; window_start = now; window = window; block_until = 0 }
    else record r { count = r.count + 1; window = window }

unfoldable pub incr : File → Instant → String → Duration → Fallible ℕ × File
unfolding incr_record lookup insert
incr f now key window =
    let r = incr_record now key window (lookup key f.records) in
    (ok r.count, record f { records = insert key r f.records; dirty = true })

unfoldable pub live_count : Instant → Option Record → ℕ
live_count now none = 0
live_count now (some r) =
    if ltb 0 r.window
    then if ltb r.window (since now r.window_start) then 0 else r.count
    else r.count

unfoldable pub get : File → Instant → String → Fallible ℕ
unfolding live_count lookup
get f now key = ok (live_count now (lookup key f.records))

unfoldable pub block_record : Instant → String → Duration → Option Record → Record
block_record now key duration none = record {
  key = key;
  count = 0;
  window_start = 0;
  window = 0;
  block_until = now + duration;
}
block_record now key duration (some r) = record r { block_until = now + duration }

unfoldable pub block : File → Instant → String → Duration → Fallible (Unit {0}) × File
unfolding block_record lookup insert
block f now key duration =
    let r = block_record now key duration (lookup key f.records) in
    (ok tt, record f { records = insert key r f.records; dirty = true })

unfoldable pub is_banned : Instant → Option Record → Bool
is_banned now none = false
is_banned now (some r) = ltb now r.block_until

unfoldable pub is_blocked : File → Instant → String → Fallible Bool
unfolding is_banned lookup
is_blocked f now key = ok (is_banned now (lookup key f.records))

unfoldable pub record_window : Record → Duration
record_window r = if ltb 0 r.window then r.window else 5 * minute

-- The record outlives a save.
unfoldable pub is_alive : Instant → Record → Bool
unfolding record_window
is_alive now r =
    (not (r.block_until == 0) && ltb now r.block_until)
    || (not (r.window_start == 0) && leb (since now r.window_start) (record_window r))

-- The calls of the operating system in a save, and the one that clears up after it.
pub data SysCall : Type 0 where
  create_temp chmod write sync close_temp rename remove : SysCall

-- What the operating system does in one save: the error of each call, if it has one, the name that
-- `CreateTemp` chooses, and what a `Write` that fails has written.
pub record Os : Type 0 where
  pub fails : SysCall → Option String
  pub temp_name : String
  pub part : String

-- The calls of a save, in order.
unfoldable pub save_calls : List SysCall
save_calls = create_temp ∷ chmod ∷ write ∷ sync ∷ close_temp ∷ rename ∷ []

abbrev pub set_temp : Os → Content → Disk → Disk
set_temp os c d = record d { temps = insert os.temp_name c d.temps }

abbrev pub sync_temp : Os → Option Content → Disk → Disk
sync_temp os none d = d
sync_temp os (some c) d = set_temp os (record { text = c.text; synced = true }) d

abbrev pub rename_temp : Os → Option Content → Disk → Disk
rename_temp os none d = d
rename_temp os (some c) d = record { live = some c; temps = erase os.temp_name d.temps }

-- A call that succeeds.
unfoldable pub perform : Os → String → Disk → SysCall → Disk
unfolding lookup insert erase
perform os text d create_temp = set_temp os (record { text = ""; synced = false }) d
perform os text d chmod = d
perform os text d write = set_temp os (record { text = text; synced = false }) d
perform os text d sync = sync_temp os (lookup os.temp_name d.temps) d
perform os text d close_temp = d
perform os text d rename = rename_temp os (lookup os.temp_name d.temps) d
perform os text d remove = record d { temps = erase os.temp_name d.temps }

-- A call that fails: a `Write` may have written a part.
abbrev pub perform_part : Os → Disk → SysCall → Disk
perform_part os d write = set_temp os (record { text = os.part; synced = false }) d
perform_part os d c = d

-- The deferred function, which `saveLocked` registers once the temporary file exists: it removes the
-- file, and nobody reads its error.
unfoldable pub remove_temp : Os → String → Disk → SysCall → Disk
unfolding perform
remove_temp os text d create_temp = d
remove_temp os text d c = elim (os.fails remove) [ some e ↦ d | none ↦ perform os text d remove ]

unfoldable pub write_file : Os → String → List SysCall → Disk → Fallible (Unit {0}) × Disk
unfolding perform remove_temp
write_file os text [] d = (ok tt, d)
write_file os text (c ∷ cs) d =
    let rest = write_file os text cs (perform os text d c) in
    elim (os.fails c) [
      | some e ↦ (err e, remove_temp os text (perform_part os d c) c)
      | none ↦ rest
    ]

unfoldable pub save_locked : Json → Os → File → Instant → Fallible (Unit {0}) × File
unfolding write_file save_calls is_alive retain
save_locked json os f now =
    let alive = retain (is_alive now) f.records in
    elim (json.marshal (map (λ r. r.1) alive)) [
      | none ↦ (err "json", record f { records = alive })
      | some text ↦
          let saved = write_file os text save_calls f.disk in
          (saved.0, record f { records = alive; disk = saved.1 })
    ]

unfoldable pub close : Json → Os → File → Instant → Fallible (Unit {0}) × File
unfolding save_locked
close json os f now = save_locked json os (record f { closed = true }) now

abbrev saved_or_dirty : Fallible (Unit {0}) × File → File
saved_or_dirty (ok _, f) = record f { dirty = false }
saved_or_dirty (err e, f) = f

-- One tick of the loop of `autoSave`.
unfoldable pub auto_save : Json → Os → File → Instant → File
unfolding save_locked
auto_save json os f now = if f.dirty then saved_or_dirty (save_locked json os f now) else f

unfoldable pub file_backend : Json → Os → Backend File
unfolding incr get block is_blocked close
file_backend json os = record {
  incr = incr;
  get = get;
  block = block;
  is_blocked = is_blocked;
  close = close json os;
}
