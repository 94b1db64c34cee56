-- ===== src/Session/BruteForce/Touching.antt =====
-- session/bruteforce.go: what recording a client's identity changes, over any store that does not fail.
use text.Mathlib.Text.{◌==◌ as str_eq}
use security_go.Shared.{
  ◌+◌, ◌≡◌, refl, ◌∙◌, Bool, true, false, String, List, [], none, some, Fallible, ok, ltb,
  if◌then◌else◌, Bool-cases, inl, inr, eq_refl,
}
use security_go.Shared.Time.{Instant, Duration}
use security_go.Session.{Store, IsStore, Packages, Laws}
use security_go.Session.Tracker.{Tracker, hash_token, stuffing_key, load_nets, save_nets}
use security_go.Session.Lockout.{failure_window}
use security_go.Session.BruteForce.{record_stuffing, remember_id, contains, add_id}

module _ {S : Type 0} (p : Packages) (laws : Laws p) (store : Store S) (is : IsStore store)
    (t : Tracker) where
  -- The store after a save.
  abbrev pub stored : S → Instant → String → String → Duration → S
  stored s now k value ttl = (store.save s now k value ttl).1

  pub save-eq :
      (s : S) (now : Instant) (k value : String) (ttl : Duration)
      → store.save s now k value ttl ≡ (ok tt, stored s now k value ttl)
  save-eq s now k value ttl = λ i. (is.saves s now k value ttl i, stored s now k value ttl)

  save_nets-eq :
      (s : S) (now : Instant) (key : String) (ids : List String) (ttl : Duration) (value : String)
      → p.marshal_texts ids ≡ some value
      → save_nets p store now key ids ttl s ≡ (ok tt, stored s now key value ttl)
  unfolding save_nets
  save_nets-eq s now key ids ttl value h = rw (h, save_nets) (save-eq s now key value ttl)

  -- An operation that succeeds and changes nothing but what is stored under the key.
  pub record Touches (key : String) (s : S) (r : Fallible (Unit {0}) × S) : Type 0 where
    pub succeeds : r.0 ≡ ok tt
    pub others :
        (later : Instant) (j : String)
        → str_eq key j ≡ false
        → store.load r.1 later j ≡ store.load s later j

  Touches-stored :
      (s : S) (now : Instant) (key value : String) (ttl : Duration)
      → Touches key s (ok tt, stored s now key value ttl)
  Touches-stored s now key value ttl = record {
    succeeds = refl;
    others = λ later j other. is.load-save s now later key j value ttl ∙ rw other refl;
  }

  -- The list of the identities that a client failed against can be read.
  abbrev pub IsReadable : String → S → Type 0
  IsReadable ip s =
      (now : Instant) → (ids : List String) × (load_nets p store now (stuffing_key p ip) s ≡ ok ids)

  remember_id-Touches :
      (s : S) (now : Instant) (key h : String) (ids : List String)
      → Touches key s (remember_id p store t now key h ids s)
  unfolding remember_id
  remember_id-Touches s now key h ids = elim (Bool-cases (contains h ids)) [
    | inl old ↦ rw old (record { succeeds = refl; others = λ later j other. refl })
    | inr new ↦
        let (value, written, back) =
          laws.unmarshal_texts-marshal_texts (add_id p store t now h ids) in
        rw (new, save_nets-eq s now key _ (failure_window t) value written)
          (Touches-stored s now key value (failure_window t))
  ]

  pub record_stuffing-Touches :
      (s : S) (now : Instant) (identity ip : String)
      → IsReadable ip s
      → Touches (stuffing_key p ip) s (record_stuffing p store t now identity ip s)
  unfolding record_stuffing
  record_stuffing-Touches s now identity ip h = elim (Bool-cases (str_eq ip "")) [
    | inl empty ↦ rw empty (record { succeeds = refl; others = λ later j other. refl })
    | inr named ↦
        let (ids, here) = h now in
        rw (named, here) (remember_id-Touches s now (stuffing_key p ip) (hash_token p identity) ids)
  ]

  readable_of_value :
      (ip : String) (s : S) (ids : List String) (value : String)
      → p.unmarshal_texts value ≡ some ids
      → (later : Instant) (gone : Bool)
      → store.load s later (stuffing_key p ip) ≡ ok (if gone then none else some value)
      → (found : List String) × (load_nets p store later (stuffing_key p ip) s ≡ ok found)
  unfolding load_nets
  readable_of_value ip s ids value back later true h = ([], rw (h, load_nets) refl)
  readable_of_value ip s ids value back later false h = (ids, rw (h, load_nets, back) refl)

  readable_same :
      (ip : String) (s s' : S) (later : Instant)
      → store.load s' later (stuffing_key p ip) ≡ store.load s later (stuffing_key p ip)
      → (found : List String) × (load_nets p store later (stuffing_key p ip) s ≡ ok found)
      → (found : List String) × (load_nets p store later (stuffing_key p ip) s' ≡ ok found)
  unfolding load_nets
  readable_same ip s s' later same (ids, here) = (ids, rw (same, load_nets) here)

  pub IsReadable-after :
      (ip : String) (s s' : S)
      → ((later : Instant)
          → store.load s' later (stuffing_key p ip) ≡ store.load s later (stuffing_key p ip))
      → IsReadable ip s
      → IsReadable ip s'
  IsReadable-after ip s s' same readable later =
      readable_same ip s s' later (same later) (readable later)

  remember_id-IsReadable :
      (s : S) (now : Instant) (ip h : String) (ids : List String)
      → IsReadable ip s
      → IsReadable ip (remember_id p store t now (stuffing_key p ip) h ids s).1
  unfolding remember_id
  remember_id-IsReadable s now ip h ids readable later = elim (Bool-cases (contains h ids)) [
    | inl old ↦ rw old (readable later)
    | inr new ↦
        let key = stuffing_key p ip in
        let longer = add_id p store t now h ids in
        let ttl = failure_window t in
        let (value, written, back) = laws.unmarshal_texts-marshal_texts longer in
        let saved = is.load-save s now later key key value ttl ∙ rw (eq_refl key) refl in
        rw (new, save_nets-eq s now key longer ttl value written)
          (readable_of_value ip (stored s now key value ttl) longer value back later
            (ltb (now + ttl) later) saved)
  ]

  pub record_stuffing-IsReadable :
      (s : S) (now : Instant) (identity ip : String)
      → IsReadable ip s
      → IsReadable ip (record_stuffing p store t now identity ip s).1
  unfolding record_stuffing
  record_stuffing-IsReadable s now identity ip h later = elim (Bool-cases (str_eq ip "")) [
    | inl empty ↦ rw empty (h later)
    | inr named ↦
        let (ids, here) = h now in
        rw (named, here) (remember_id-IsReadable s now ip (hash_token p identity) ids h later)
  ]
