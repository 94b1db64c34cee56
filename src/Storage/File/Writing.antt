-- ===== src/Storage/File/Writing.antt =====
-- storage/file.go: what the calls of a save leave on the disk, errors and a power cut included.
use security_go.Shared.{
  ℕ, zero, suc, ◌≡◌, ◌≢◌, refl, ◌∙◌, ◌⊎◌, inl, inr, true, false, String, List, [], ◌∷◌, Option,
  none, some, Fallible, ok, err, arith, eq_iff, eq_refl, Option-cases, All,
}
use security_go.Shared.Assoc.{lookup, insert, erase, lookup-insert, lookup-erase}
use security_go.Storage.File.{
  Content, Disk, Os, SysCall, create_temp, chmod, write, sync, close_temp, rename, remove,
  save_calls, set_temp, sync_temp, perform, perform_part, remove_temp, write_file,
}

-- The first calls of a save that is cut off.
abbrev pub first_calls : ℕ → List SysCall → List SysCall
first_calls n [] = []
first_calls zero (c ∷ cs) = []
first_calls (suc n) (c ∷ cs) = c ∷ first_calls n cs

-- What may be read of a file after a power cut: anything, unless it is synced.
abbrev pub Survives : Option Content → Option String → Type 0
Survives none found = found ≡ none
Survives (some c) found = c.synced ≡ true → found ≡ some c.text

abbrev pub IsSynced : Option Content → Type 0
IsSynced none = Unit
IsSynced (some c) = c.synced ≡ true

-- Two disks have the same temporary files.
abbrev pub SameTemps : Disk → Disk → Type 0
SameTemps d d' = (k : String) → lookup k d'.temps ≡ lookup k d.temps

-- The text, safe from a power cut.
abbrev pub whole : String → Content
whole text = record { text = text; synced = true }

-- Two disks have the same temporary files, but for that of this save.
abbrev pub SameOthers : Os → Disk → Disk → Type 0
SameOthers os d d' = (k : String) → k ≢ os.temp_name → lookup k d'.temps ≡ lookup k d.temps

module _ (os : Os) (text : String) where
  abbrev Beside : Disk → Disk → Type 0
  Beside d d' = (d'.live ≡ d.live) × SameOthers os d d'

  insert-other :
      (c : Content) (d d' : Disk) → SameOthers os d d' → SameOthers os d (set_temp os c d')
  insert-other c d d' b k other =
      lookup-insert os.temp_name k c d'.temps ∙ ground (arith, eq_iff os.temp_name k, b k other)

  erase-other :
      (l : Option Content) (d d' : Disk)
      → SameOthers os d d'
      → SameOthers os d (record { live = l; temps = erase os.temp_name d'.temps })
  erase-other l d d' b k other =
      lookup-erase os.temp_name k d'.temps ∙ ground (arith, eq_iff os.temp_name k, b k other)

  set_temp-Beside : (c : Content) (d d' : Disk) → Beside d d' → Beside d (set_temp os c d')
  set_temp-Beside c d d' b = (b.0, insert-other c d d' b.1)

  sync_temp-Beside : (c : Option Content) (d d' : Disk) → Beside d d' → Beside d (sync_temp os c d')
  sync_temp-Beside none d d' b = b
  sync_temp-Beside (some c) d d' b = set_temp-Beside _ d d' b

  perform-Beside :
      (c : SysCall) (d d' : Disk) → c ≢ rename → Beside d d' → Beside d (perform os text d' c)
  unfolding perform
  perform-Beside create_temp d d' h b = set_temp-Beside _ d d' b
  perform-Beside chmod d d' h b = b
  perform-Beside write d d' h b = set_temp-Beside _ d d' b
  perform-Beside sync d d' h b = sync_temp-Beside _ d d' b
  perform-Beside close_temp d d' h b = b
  perform-Beside rename d d' h b = absurd (h refl)
  perform-Beside remove d d' h b = (b.0, erase-other d'.live d d' b.1)

  perform_part-Beside : (c : SysCall) (d d' : Disk) → Beside d d' → Beside d (perform_part os d' c)
  perform_part-Beside create_temp d d' b = b
  perform_part-Beside chmod d d' b = b
  perform_part-Beside write d d' b = set_temp-Beside _ d d' b
  perform_part-Beside sync d d' b = b
  perform_part-Beside close_temp d d' b = b
  perform_part-Beside rename d d' b = b
  perform_part-Beside remove d d' b = b

  -- The temporary file is gone, or there was none to begin with, or its removal failed.
  abbrev Gone : Disk → Disk → Type 0
  Gone d d' =
      ((lookup os.temp_name d'.temps ≡ none)
        ⊎ (lookup os.temp_name d'.temps ≡ lookup os.temp_name d.temps))
      ⊎ ((e : String) × (os.fails remove ≡ some e))

  erased : (d : Disk) → lookup os.temp_name (erase os.temp_name d.temps) ≡ none
  erased d = lookup-erase os.temp_name os.temp_name d.temps ∙ rw (eq_refl os.temp_name) refl

  removed :
      (c : SysCall) (d d' : Disk)
      → c ≢ create_temp
      → Beside d d'
      → Beside d (remove_temp os text d' c) × Gone d (remove_temp os text d' c)
  unfolding remove_temp perform
  removed create_temp d d' h b = absurd (h refl)
  removed c d d' h b = elim (Option-cases (os.fails remove)) [
    | inl done ↦ rw (done, remove_temp) ((b.0, erase-other d'.live d d' b.1), inl (inl (erased d')))
    | inr (e, bad) ↦ rw (bad, remove_temp) (b, inr (e, refl))
  ]

  abbrev Done : Disk → Fallible (Unit {0}) × Disk → Type 0
  Done d r =
      (r.0 ≡ ok tt)
      × (r.1.live ≡ some (whole text))
      × SameOthers os d r.1
      × (lookup os.temp_name r.1.temps ≡ none)

  abbrev Stopped : Disk → Fallible (Unit {0}) × Disk → Type 0
  Stopped d r =
      (e : String) × (c : SysCall) × (os.fails c ≡ some e)
      × (r.0 ≡ err e)
      × Beside d r.1
      × Gone d r.1

  abbrev Outcome : Disk → Fallible (Unit {0}) × Disk → Type 0
  Outcome d r = Done d r ⊎ Stopped d r

  -- A call of a save that is not its first.
  next_call :
      (c : SysCall) (cs : List SysCall) (d d' : Disk)
      → c ≢ create_temp
      → Beside d d'
      → Outcome d (write_file os text cs (perform os text d' c))
      → Outcome d (write_file os text (c ∷ cs) d')
  unfolding write_file
  next_call c cs d d' h b rest = elim (Option-cases (os.fails c)) [
    | inl done ↦ rw (done, write_file) rest
    | inr (e, bad) ↦
        let (beside, gone) = removed c d (perform_part os d' c) h (perform_part-Beside c d d' b) in
        rw (bad, write_file) (inr (e, c, bad, refl, beside, gone))
  ]

  lookup-set_temp :
      (c : Content) (d : Disk) → lookup os.temp_name (insert os.temp_name c d.temps) ≡ some c
  lookup-set_temp c d =
      lookup-insert os.temp_name os.temp_name c d.temps ∙ rw (eq_refl os.temp_name) refl

  -- The last calls of a save that goes well, on the disk before the `Write`.
  perform-Done :
      (d d' : Disk)
      → Beside d d'
      → Done d (
        ok tt,
        perform os text
            (perform os text (perform os text (perform os text d' write) sync) close_temp)
            rename,
      )
  unfolding perform
  perform-Done d d' b =
      let unsynced : Disk = set_temp os (record { text = text; synced = false }) d' in
      rw (lookup-set_temp (record { text = text; synced = false }) d') (
        rw (lookup-set_temp (whole text) unsynced) (
          refl,
          refl,
          erase-other (some (whole text)) d (set_temp os (whole text) unsynced)
              (insert-other (whole text) d unsynced (insert-other _ d d' b.1)),
          erased (set_temp os (whole text) unsynced),
        ))

  -- All the calls of a save but the first, on the disk that the first one leaves.
  outcome_created :
      (d d' : Disk)
      → Beside d d'
      → Outcome d (write_file os text (chmod ∷ write ∷ sync ∷ close_temp ∷ rename ∷ []) d')
  unfolding write_file
  outcome_created d d' b =
      let d3 : Disk = perform os text (perform os text d' chmod) write in
      let d5 : Disk = perform os text (perform os text d3 sync) close_temp in
      let b2 : Beside d (perform os text d' chmod) = perform-Beside chmod d d' (λ e. cc) b in
      let b3 : Beside d d3 = perform-Beside write d _ (λ e. cc) b2 in
      let b4 : Beside d (perform os text d3 sync) = perform-Beside sync d d3 (λ e. cc) b3 in
      let b5 : Beside d d5 = perform-Beside close_temp d _ (λ e. cc) b4 in
      let done : Done d (ok tt, perform os text d5 rename) =
        perform-Done d (perform os text d' chmod) b2 in
      next_call chmod (write ∷ sync ∷ close_temp ∷ rename ∷ []) d d' (λ e. cc) b
        (next_call write (sync ∷ close_temp ∷ rename ∷ []) d _ (λ e. cc) b2
          (next_call sync (close_temp ∷ rename ∷ []) d d3 (λ e. cc) b3
            (next_call close_temp (rename ∷ []) d _ (λ e. cc) b4
              (next_call rename [] d d5 (λ e. cc) b5 (inl done)))))

  pub outcome : (d : Disk) → Outcome d (write_file os text save_calls d)
  unfolding write_file save_calls remove_temp
  outcome d = elim (Option-cases (os.fails create_temp)) [
    | inr (e, bad) ↦
        rw (bad, write_file)
          (inr (e, create_temp, bad, refl, (refl, λ k other. refl), inl (inr refl)))
    | inl made ↦
        rw (made, write_file)
          (outcome_created d (perform os text d create_temp)
            (perform-Beside create_temp d d (λ e. cc) (refl, λ k other. refl)))
  ]

  write_file-Beside :
      (cs : List SysCall) (d d' : Disk)
      → All (λ c. (c ≢ create_temp) × (c ≢ rename)) cs
      → Beside d d'
      → Beside d (write_file os text cs d').1
  unfolding write_file
  write_file-Beside [] d d' h b = b
  write_file-Beside (c ∷ cs) d d' ((tail_call, plain), later) b = elim (Option-cases (os.fails c)) [
    | inl done ↦
        rw (done, write_file) (write_file-Beside cs d _ later (perform-Beside c d d' plain b))
    | inr (e, bad) ↦
        rw (bad, write_file)
          (removed c d (perform_part os d' c) tail_call (perform_part-Beside c d d' b)).0
  ]

  -- A save that is cut off before its `Rename` leaves the live file as it is.
  pub write_file-live :
      (cs : List SysCall) (d : Disk)
      → All (λ c. (c ≢ create_temp) × (c ≢ rename)) cs
      → (write_file os text (create_temp ∷ cs) d).1.live ≡ d.live
  unfolding write_file remove_temp
  write_file-live cs d h = elim (Option-cases (os.fails create_temp)) [
    | inr (e, bad) ↦ rw (bad, write_file) refl
    | inl made ↦
        rw (made, write_file)
          (write_file-Beside cs d (perform os text d create_temp) h
            (perform-Beside create_temp d d (λ e. cc) (refl, λ k other. refl))).0
  ]
