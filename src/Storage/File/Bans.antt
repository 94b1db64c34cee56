-- ===== src/Storage/File/Bans.antt =====
-- storage/file.go behind httpval/ip_blacklist.go: a counter's new window takes the ban along.
use security_go.Shared.{◌<◌, ◌≡◌, false, String, some, arith, eq_refl, ltb, leb}
use security_go.Shared.Assoc.{lookup, lookup-insert}
use security_go.Shared.Time.{Instant, Duration, since}
use security_go.Storage.File.{File, Record, Json, Os, file_backend, incr_record}
use security_go.Storage.IpBlacklist.{IpBlacklist, detect, record_attack}

incr_record_over :
    (now : Instant) (key : String) (w : Duration) (r : Record)
    → w < since now r.window_start
    → incr_record now key w (some r)
      ≡ record { key = key; count = 1; window_start = now; window = w; block_until = 0 }
unfolding incr_record
incr_record_over now key w r h = ground arith

-- The bug: with the file backend, an attack by an address whose counting window has elapsed ends the
-- address's ban, however long it still had to run, unless one attack alone reaches the threshold.
-- From then on `Detect` reports the address at no time.
pub record_attack_lifts_ban :
    (json : Json) (os : Os) (b : IpBlacklist) (f : File) (ip : String) (r : Record)
    (now later : Instant)
    → 1 < b.threshold
    → lookup ip f.records ≡ some r
    → b.window < since now r.window_start
    → (detect
        (file_backend json os)
        b
        (record_attack (file_backend json os) b f now ip).1
        later
        ip).detected
      ≡ false
unfolding detect record_attack file_backend
record_attack_lifts_ban json os b f ip r now later many found over =
    rw (found, incr_record_over now ip b.window r over, not_reached)
      (rw (lookup-insert ip ip opened f.records, eq_refl ip, never_banned later))
  where
    opened : Record
    opened = record { key = ip; count = 1; window_start = now; window = b.window; block_until = 0 }

    not_reached : leb b.threshold 1 ≡ false
    not_reached = ground arith

    never_banned : (later : Instant) → ltb later 0 ≡ false
    never_banned later = ground arith
