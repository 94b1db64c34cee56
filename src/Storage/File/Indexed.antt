-- ===== src/Storage/File/Indexed.antt =====
-- storage/file.go: the map of records holds each record under its own key, once.
use security_go.Shared.{
  ◌≡◌, refl, Bool, String, List, [], ◌∷◌, Option, none, some, foldl, arith, eq_iff, All,
}
use security_go.Shared.Assoc.{lookup, insert, retain, IsMap, retain-IsMap, insert-IsMap}
use security_go.Shared.Time.{Instant, Duration}
use security_go.Storage.File.{
  File, Record, Disk, live_text, Json, Os, incr, block, new_file, load, incr_record, block_record,
  add_record, file_backend,
}
use security_go.Storage.{Call, call}

abbrev IsKeyed : List (String × Record) → Type 0
IsKeyed = All (λ r. r.1.key ≡ r.0)

-- Each record stands under its own key, once.
pub record IsIndexed (m : List (String × Record)) : Type 0 where
  pub once : IsMap m
  pub keyed : IsKeyed m

retain-IsKeyed :
    (keep : Record → Bool) (m : List (String × Record)) → IsKeyed m → IsKeyed (retain keep m)
unfolding retain
retain-IsKeyed keep [] h = tt
retain-IsKeyed keep ((j, r) ∷ m) h = ground (arith, retain-IsKeyed keep m h.1)

pub retain-IsIndexed :
    (keep : Record → Bool) (m : List (String × Record)) → IsIndexed m → IsIndexed (retain keep m)
retain-IsIndexed keep m v = record {
  once = retain-IsMap keep m v.once;
  keyed = retain-IsKeyed keep m v.keyed;
}

insert-IsKeyed :
    (k : String) (r : Record) (m : List (String × Record))
    → r.key ≡ k
    → IsKeyed m
    → IsKeyed (insert k r m)
unfolding insert
insert-IsKeyed k r [] e h = (e, tt)
insert-IsKeyed k r ((j, q) ∷ m) e h = ground (arith, insert-IsKeyed k r m e h.1)

insert-IsIndexed :
    (k : String) (r : Record) (m : List (String × Record))
    → r.key ≡ k
    → IsIndexed m
    → IsIndexed (insert k r m)
insert-IsIndexed k r m e v = record {
  once = insert-IsMap k r m v.once;
  keyed = insert-IsKeyed k r m e v.keyed;
}

lookup-keyed :
    (k : String) (r : Record) (m : List (String × Record))
    → IsKeyed m
    → lookup k m ≡ some r
    → r.key ≡ k
unfolding lookup
lookup-keyed k r [] h e = cc
lookup-keyed k r ((j, q) ∷ m) h e = ground (arith, eq_iff j k, lookup-keyed k r m h.1)

incr_record-key :
    (now : Instant) (k : String) (w : Duration) (o : Option Record)
    → ((r : Record) → o ≡ some r → r.key ≡ k)
    → (incr_record now k w o).key ≡ k
unfolding incr_record
incr_record-key now k w none h = refl
incr_record-key now k w (some r) h = ground (arith, h r refl)

block_record-key :
    (now : Instant) (k : String) (d : Duration) (o : Option Record)
    → ((r : Record) → o ≡ some r → r.key ≡ k)
    → (block_record now k d o).key ≡ k
unfolding block_record
block_record-key now k d none h = refl
block_record-key now k d (some r) h = h r refl

add_all-IsIndexed :
    (m : List (String × Record)) (rs : List Record)
    → IsIndexed m
    → IsIndexed (foldl add_record m rs)
add_all-IsIndexed m [] v = v
add_all-IsIndexed m (r ∷ rs) v =
    add_all-IsIndexed (insert r.key r m) rs (insert-IsIndexed r.key r m refl v)

pub new_file-IsIndexed : (json : Json) (d : Disk) → IsIndexed (new_file json d).records
unfolding new_file
new_file-IsIndexed json d =
    add_all-IsIndexed [] (load json (live_text d.live)) (record { once = tt; keyed = tt })

pub incr-IsIndexed :
    (f : File) (now : Instant) (k : String) (w : Duration)
    → IsIndexed f.records
    → IsIndexed (incr f now k w).1.records
unfolding incr
incr-IsIndexed f now k w v =
    insert-IsIndexed k _ f.records
      (incr_record-key now k w (lookup k f.records) (λ r. lookup-keyed k r f.records v.keyed)) v

pub block-IsIndexed :
    (f : File) (now : Instant) (k : String) (d : Duration)
    → IsIndexed f.records
    → IsIndexed (block f now k d).1.records
unfolding block
block-IsIndexed f now k d v =
    insert-IsIndexed k _ f.records
      (block_record-key now k d (lookup k f.records) (λ r. lookup-keyed k r f.records v.keyed)) v

-- Whatever a client asks of a file backend whose records stand under their own keys, each key once,
-- they stand so afterwards.
pub call-IsIndexed :
    (json : Json) (os : Os) (f : File) (now : Instant) (c : Call)
    → IsIndexed f.records
    → IsIndexed (call (file_backend json os) f now c).1.records
unfolding call file_backend
call-IsIndexed json os f now (Call.incr key window) v = incr-IsIndexed f now key window v
call-IsIndexed json os f now (Call.get key) v = v
call-IsIndexed json os f now (Call.block key duration) v = block-IsIndexed f now key duration v
call-IsIndexed json os f now (Call.is_blocked key) v = v
