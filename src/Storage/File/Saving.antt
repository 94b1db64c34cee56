-- ===== src/Storage/File/Saving.antt =====
-- storage/file.go: what a save writes, and what the next start reads back.
use security_go.Shared.{
  ℕ, zero, suc, ◌≡◌, refl, subst, ◌∙◌, ◌⊎◌, inl, inr, String, List, [], ◌∷◌, Option, none, some, ok,
  err, map, foldl, arith, eq_iff, All, Option-cases, Fallible,
}
use security_go.Shared.Assoc.{
  lookup, insert, retain, kept, IsMap, Fresh, lookup-insert, lookup-Fresh, lookup-retain,
}
use security_go.Shared.Time.{Instant}
use security_go.Storage.File.{
  File, Record, Content, Disk, live_text, Json, Os, SysCall, chmod, write, sync, close_temp, remove,
  save_calls, write_file, save_locked, new_file, is_alive, add_record, load,
}
use security_go.Storage.File.Writing.{
  SameTemps, SameOthers, whole, outcome, write_file-live, first_calls, Survives, IsSynced,
}
use security_go.Storage.File.Indexed.{IsIndexed, retain-IsIndexed}

-- A save succeeds: the text is live and safe from a power cut, and the temporary files are those of
-- before.
abbrev pub Saved : String → Disk → Fallible (Unit {0}) × Disk → Type 0
Saved text d r = (r.0 ≡ ok tt) × (r.1.live ≡ some (whole text)) × SameTemps d r.1

-- A save fails with a call's error: the live file is untouched, and so are the temporary ones, but
-- for that of this save if its removal fails as well.
abbrev pub Failed : Os → Disk → Fallible (Unit {0}) × Disk → Type 0
Failed os d r =
    (e : String) × (c : SysCall) × (os.fails c ≡ some e)
    × (r.0 ≡ err e)
    × (r.1.live ≡ d.live)
    × (SameTemps d r.1 ⊎ (((x : String) × (os.fails remove ≡ some x)) × SameOthers os d r.1))

-- The live file after the first `n` calls of a save, the clearing up of a failed one included.
cut_live :
    (os : Os) (text : String) (n : ℕ) (d : Disk)
    → ((write_file os text (first_calls n save_calls) d).1.live ≡ d.live)
      ⊎ ((write_file os text (first_calls n save_calls) d).1.live ≡ some (whole text))
unfolding save_calls
cut_live os text zero d = inl (unfold write_file in refl)
cut_live os text (suc zero) d = inl (write_file-live os text [] d tt)
cut_live os text (suc (suc zero)) d =
    inl (write_file-live os text (chmod ∷ []) d ((λ e. cc, λ e. cc), tt))
cut_live os text (suc (suc (suc zero))) d =
    inl (
      write_file-live os text (chmod ∷ write ∷ []) d ((λ e. cc, λ e. cc), ((λ e. cc, λ e. cc), tt)))
cut_live os text (suc (suc (suc (suc zero)))) d = inl (
    write_file-live os text (chmod ∷ write ∷ sync ∷ []) d
      ((λ e. cc, λ e. cc), ((λ e. cc, λ e. cc), ((λ e. cc, λ e. cc), tt))))
cut_live os text (suc (suc (suc (suc (suc zero))))) d = inl (
    write_file-live os text (chmod ∷ write ∷ sync ∷ close_temp ∷ []) d
      ((λ e. cc, λ e. cc), ((λ e. cc, λ e. cc), ((λ e. cc, λ e. cc), ((λ e. cc, λ e. cc), tt)))))
cut_live os text (suc (suc (suc (suc (suc (suc n)))))) d = elim (outcome os text d) [
  | inl (done, live, others, gone) ↦ inr live
  | inr (e, c, bad, answer, (live, others), gone) ↦ inl live
]

Survives-live_text :
    (c : Option Content) (found : Option String)
    → IsSynced c
    → Survives c found
    → found ≡ live_text c
Survives-live_text none found h s = s
Survives-live_text (some c) found h s = s h

-- Whatever calls fail and whenever a power cut stops a save: where the live file was absent or synced
-- before, what is read of it afterwards is what it held before or the whole new text.
pub save-atomic :
    (os : Os) (text : String) (n : ℕ) (d : Disk) (found : Option String)
    → IsSynced d.live
    → Survives (write_file os text (first_calls n save_calls) d).1.live found
    → (found ≡ live_text d.live) ⊎ (found ≡ some text)
save-atomic os text n d found synced s = elim (cut_live os text n d) [
  | inl old ↦ inl (Survives-live_text d.live found synced (subst (λ c. Survives c found) old s))
  | inr new ↦ inr (subst (λ c. Survives c found) new s refl)
]

-- Reading back the records of an indexed map gives what the map holds.
lookup-foldl :
    (k : String) (m : List (String × Record)) (found : List (String × Record))
    → IsMap m
    → All (λ r. r.1.key ≡ r.0) m
    → lookup k (foldl add_record found (map (λ r. r.1) m))
      ≡ elim (lookup k m) [ none ↦ lookup k found | some r ↦ some r ]
unfolding lookup
lookup-foldl k [] found h keyed = refl
lookup-foldl k ((j, r) ∷ m) found h keyed = ground (
  arith,
  lookup-foldl k m (insert r.key r found) h.1 keyed.1,
  lookup-insert r.key k r found,
  eq_iff j k,
  eq_iff r.key k,
  λ (e : j ≡ k). lookup-Fresh k m (subst (λ x. Fresh x m) e h.0),
)

load_lem :
    (json : Json) (text : String) (rs : List Record)
    → json.unmarshal text ≡ some rs
    → load json (some text) ≡ rs
unfolding load
load_lem json text rs h = rw (h, load)

new_file-saved :
    (json : Json) (k : String) (m : List (String × Record)) (text : String) (disk : Disk)
    → disk.live ≡ some (whole text)
    → json.unmarshal text ≡ some (map (λ r. r.1) m)
    → IsIndexed m
    → lookup k (new_file json disk).records ≡ lookup k m
unfolding new_file
new_file-saved json k m text disk live h v =
    rw (live, load_lem json text _ h) (lookup-foldl k m [] v.once v.keyed ∙ no_default (lookup k m))
  where
    no_default :
        (o : Option Record)
        → elim o as (λ _. Option Record) [ none ↦ lookup k [] | some r ↦ some r ] ≡ o
    no_default none = unfold lookup in refl
    no_default (some r) = refl

-- A restart after a save that succeeds: the new backend holds of each key the record that was saved,
-- if that was alive at the save, and nothing else. Package json is assumed to read back what it
-- wrote.
pub reload-save_locked :
    (json : Json) (os : Os) (f : File) (now : Instant) (k : String)
    → ((rs : List Record) (text : String)
        → json.marshal rs ≡ some text
        → json.unmarshal text ≡ some rs)
    → IsIndexed f.records
    → (save_locked json os f now).0 ≡ ok tt
    → lookup k (new_file json (save_locked json os f now).1.disk).records
      ≡ kept (is_alive now) (lookup k f.records)
unfolding save_locked
reload-save_locked json os f now k back v done =
    elim (Option-cases (json.marshal (map (λ r. r.1) alive))) [
      | inl bad ↦ cc (rw (bad, save_locked) at done)
      | inr (text, written) ↦ elim (outcome os text f.disk) [
        | inl (saved, live, others, gone) ↦
            rw (written, save_locked)
              (new_file-saved json k alive text _ live (back _ text written)
                  (retain-IsIndexed _ f.records v)
                ∙ lookup-retain (is_alive now) k f.records v.once)
        | inr (e, c, bad, answer, beside, gone) ↦ cc (rw (written, answer, save_locked) at done)
      ]
    ]
  where
    alive : List (String × Record)
    alive = retain (is_alive now) f.records
