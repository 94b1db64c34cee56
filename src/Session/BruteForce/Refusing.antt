-- ===== src/Session/BruteForce/Refusing.antt =====
-- session/bruteforce.go: which contents of the store make `CheckLogin` refuse a login.
use text.Mathlib.Text.{◌==◌ as str_eq}
use security_go.Shared.{
  ℕ, ◌≤◌, ◌<◌, ◌≡◌, ◌≢◌, ◌↔◌, ◌⊎◌, inl, inr, refl, ap, ◌∙◌, true, false, String, List, Option, none,
  some, ok, arith, eq_iff, length, leb, ltb, Bool-cases, Option-cases,
}
use security_go.Shared.Int.{positive_or-pos}
use security_go.Shared.Time.{Instant}
use security_go.Session.{Store, Request, Packages}
use security_go.Session.Tracker.{Tracker, client_ip, load_nets, stuffing_key, lock_key}
use security_go.Session.Lockout.{stuffing_limit, locked, lock_end}
use security_go.Session.BruteForce.{stuffing_count, check_stuffing, check_login}

named-ne : (x : String) → str_eq x "" ≡ false → x ≢ ""
named-ne x named empty = cc (named, (eq_iff x "").1 empty)

leb_zero : (n : ℕ) → 0 < n → ¬ leb n 0 ≡ true
leb_zero n h = ground arith

module _ {S : Type 0} (p : Packages) (store : Store S) (t : Tracker) (now : Instant) where
  -- A stored text is the time of a lockout that has not ended.
  abbrev pub Locks : Option String → Type 0
  Locks value =
      (text : String) × (until : Instant) × (value ≡ some text)
      × (p.parse_time (p.trim_space text) ≡ some until)
      × (now < until)

  -- A stored text is a list of as many identities as the limit, or more.
  abbrev pub Stuffs : Option String → Type 0
  Stuffs value =
      (text : String) × (ids : List String) × (value ≡ some text)
      × (p.unmarshal_texts text ≡ some ids)
      × (stuffing_limit t ≤ length ids)

  lock_end-late :
      (text : String) (until : Instant)
      → p.parse_time (p.trim_space text) ≡ some until
      → now < until
      → lock_end p store now (some text) ≡ some until
  unfolding lock_end
  lock_end-late text until q late = rw (q, lock_end) (ground arith)

  lock_end-Locks :
      (value : Option String)
      → ((e : Instant) × (lock_end p store now value ≡ some e)) ↔ Locks value
  unfolding lock_end
  lock_end-Locks none = (λ (e, h). cc, λ (text, until, h, q, late). cc)
  lock_end-Locks (some text) = (
    elim (Option-cases (p.parse_time (p.trim_space text))) [
      | inl bad ↦ rw (bad, lock_end) (λ (e, h). cc)
      | inr (until, good) ↦ elim (Bool-cases (ltb now until)) [
        | inl going ↦ rw (good, lock_end, going) (λ h. (text, until, refl, good, ground arith))
        | inr over ↦ rw (good, lock_end, over) (λ (e, h). cc)
      ]
    ],
    λ (text', until, h, q, late).
        let same : text ≡ text' = cc in
        (until, lock_end-late text until (ap (λ x. p.parse_time (p.trim_space x)) same ∙ q) late),
  )

  none_stuffs : ¬ leb (stuffing_limit t) 0 ≡ true
  none_stuffs h = leb_zero (stuffing_limit t) (positive_or-pos t.stuffing_limit 10 (omega arith)) h

  stuffing_count-list :
      (ip : String) (s : S) (text : String) (ids : List String)
      → store.load s now (stuffing_key p ip) ≡ ok (some text)
      → p.unmarshal_texts text ≡ some ids
      → stuffing_count p store t now ip s ≡ length ids
  unfolding stuffing_count load_nets
  stuffing_count-list ip s text ids h q = rw (h, q, stuffing_count, load_nets) refl

  stuffing_count-Stuffs :
      (ip : String) (s : S) (list : Option String)
      → store.load s now (stuffing_key p ip) ≡ ok list
      → (leb (stuffing_limit t) (stuffing_count p store t now ip s) ≡ true) ↔ Stuffs list
  unfolding stuffing_count load_nets
  stuffing_count-Stuffs ip s none h =
      (rw (h, stuffing_count, load_nets) (λ e. absurd (none_stuffs e)), λ (x, ids, q, r, more). cc)
  stuffing_count-Stuffs ip s (some text) h = (
    elim (Option-cases (p.unmarshal_texts text)) [
      | inl bad ↦ rw (h, bad, stuffing_count, load_nets) (λ e. absurd (none_stuffs e))
      | inr (ids, good) ↦
          rw (h, good, stuffing_count, load_nets) (λ e. (text, ids, refl, good, ground arith))
    ],
    λ (text', ids, same, q, many).
        rw (stuffing_count-list ip s text' ids (h ∙ ap ok same) q) (ground arith),
  )

  check_stuffing-Stuffs :
      (ip : String) (s : S) (list : Option String)
      → store.load s now (stuffing_key p ip) ≡ ok list
      → ((check_stuffing p store t now ip s).detected ≡ true) ↔ ((ip ≢ "") × Stuffs list)
  unfolding check_stuffing
  check_stuffing-Stuffs ip s list h = elim (Bool-cases (str_eq ip "")) [
    | inl unnamed ↦
        let empty : ip ≡ "" = (eq_iff ip "").0 unnamed in
        (rw (unnamed, check_stuffing) (λ e. cc), λ (named, more). absurd (named empty))
    | inr named ↦ (
      elim (Bool-cases (leb (stuffing_limit t) (stuffing_count p store t now ip s))) [
        | inl many ↦
            rw (named, many, check_stuffing)
              (λ e. (named-ne ip named, (stuffing_count-Stuffs ip s list h).0 many))
        | inr few ↦ rw (named, few, check_stuffing) (λ e. cc)
      ],
      λ (ip_named, stuffs).
          rw (named, (stuffing_count-Stuffs ip s list h).1 stuffs, check_stuffing) refl,
    )
  ]

  no_end : (lock : Option String) → lock_end p store now lock ≡ none → ¬ Locks lock
  no_end lock free locks = let (e, late) = (lock_end-Locks lock).1 locks in cc

  locked-load :
      (identity : String) (s : S) (lock : Option String)
      → store.load s now (lock_key p identity) ≡ ok lock
      → locked p store now identity s ≡ ok (lock_end p store now lock)
  unfolding locked
  locked-load identity s lock h = rw (h, locked) refl

  -- While the store answers, `CheckLogin` refuses exactly if the identity is not empty and under its
  -- lockout key is the time of a lockout that has not ended, or if the client's address is not empty
  -- and under its key is a list of identities as long as the limit, or longer.
  pub check_login_iff :
      (r : Option Request) (identity : String) (s : S) (lock list : Option String)
      → store.load s now (lock_key p identity) ≡ ok lock
      → store.load s now (stuffing_key p (client_ip p t r)) ≡ ok list
      → ((check_login p store t now identity r s).detected ≡ true)
        ↔ (((identity ≢ "") × Locks lock) ⊎ ((client_ip p t r ≢ "") × Stuffs list))
  unfolding check_login
  check_login_iff r identity s lock list h g = elim (Bool-cases (str_eq identity "")) [
    | inl unnamed ↦
        let empty : identity ≡ "" = (eq_iff identity "").0 unnamed in
        rw (unnamed, check_login)
          (
            λ e. inr ((check_stuffing-Stuffs _ s list g).0 e),
            λ w. elim w [
              | inl (named, more) ↦ absurd (named empty)
              | inr stuffs ↦ (check_stuffing-Stuffs _ s list g).1 stuffs
            ],
          )
    | inr named ↦ elim (Option-cases (lock_end p store now lock)) [
      | inl free ↦
          rw (named, locked-load identity s lock h, free, check_login)
            (
              λ e. inr ((check_stuffing-Stuffs _ s list g).0 e),
              λ w. elim w [
                | inl (n, locks) ↦ absurd (no_end lock free locks)
                | inr stuffs ↦ (check_stuffing-Stuffs _ s list g).1 stuffs
              ],
            )
      | inr (until, late) ↦
          rw (named, locked-load identity s lock h, late, check_login)
            (λ e. inl (named-ne identity named, (lock_end-Locks lock).0 (until, late)), λ w. refl)
    ]
  ]
