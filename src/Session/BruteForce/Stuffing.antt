-- ===== src/Session/BruteForce/Stuffing.antt =====
-- session/bruteforce.go: the list of identities that a client failed against.
use mathlib.Core.List.{◌++◌ as append}
use security_go.Shared.{
  ℕ, zero, suc, ◌+◌, ◌-◌, ◌≤◌, ◌<◌, ◌≡◌, ◌≢◌, refl, sym, false, String, List, [], ◌∷◌, ltb, ltb→lt,
  min, arith, length, length-append, drop, length-drop, All, eq_iff, Bool-cases, inl, inr, In,
  In-append_right,
}
use security_go.Shared.Time.{Instant}
use security_go.Session.{Store, Packages}
use security_go.Session.Tracker.{Tracker}
use security_go.Session.Lockout.{stuffing_limit}
use security_go.Session.BruteForce.{contains, add_id}

-- No text stands twice.
abbrev pub Distinct : List String → Type 0
Distinct [] = Unit
Distinct (x ∷ xs) = All (λ y. y ≢ x) xs × Distinct xs

contains-All : (h : String) (ids : List String) → contains h ids ≡ false → All (λ y. y ≢ h) ids
unfolding contains
contains-All h [] e = tt
contains-All h (id ∷ ids) e = ground (arith, eq_iff id h, contains-All h ids)

All-snoc :
    (h id : String) (ids : List String)
    → All (λ y. y ≢ id) ids
    → h ≢ id
    → All (λ y. y ≢ id) (append ids (h ∷ []))
All-snoc h id [] a n = (n, tt)
All-snoc h id (x ∷ ids) a n = (a.0, All-snoc h id ids a.1 n)

Distinct-snoc :
    (h : String) (ids : List String)
    → All (λ y. y ≢ h) ids
    → Distinct ids
    → Distinct (append ids (h ∷ []))
Distinct-snoc h [] a d = (tt, tt)
Distinct-snoc h (id ∷ ids) a d =
    (All-snoc h id ids d.0 (λ e. a.0 (sym e)), Distinct-snoc h ids a.1 d.1)

Distinct-drop : (n : ℕ) (ids : List String) → Distinct ids → Distinct (drop n ids)
Distinct-drop zero ids d = d
Distinct-drop (suc n) [] d = d
Distinct-drop (suc n) (id ∷ ids) d = Distinct-drop n ids d.1

In-drop_snoc :
    (n : ℕ) (h : String) (ids : List String) → n ≤ length ids → In h (drop n (append ids (h ∷ [])))
In-drop_snoc zero h ids k = In-append_right h ids (h ∷ []) (inl refl)
In-drop_snoc (suc n) h [] k = absurd (omega arith)
In-drop_snoc (suc n) h (id ∷ ids) k = In-drop_snoc n h ids (omega arith)

module _ {S : Type 0} (p : Packages) (store : Store S) (t : Tracker) (now : Instant) where
  -- A list of distinct identities that is not above the limit, with a new one: the new one is in it,
  -- all are distinct, and it grows by one up to the limit and not above it.
  pub add_id_lem :
      (h : String) (ids : List String)
      → contains h ids ≡ false
      → Distinct ids
      → 0 < stuffing_limit t
      → length ids ≤ stuffing_limit t
      → In h (add_id p store t now h ids)
        × Distinct (add_id p store t now h ids)
        × (length (add_id p store t now h ids) ≡ min (stuffing_limit t) (length ids + 1))
  unfolding add_id
  add_id_lem h ids new d pos k = elim (Bool-cases (ltb (stuffing_limit t) (length longer))) [
    | inl over ↦ rw over (
      In-drop_snoc excess h ids (omega (arith, size)),
      Distinct-drop excess longer distinct,
      omega (arith, size, length-drop excess longer, ltb→lt _ _ over),
    )
    | inr fits ↦ rw fits (In-append_right h ids (h ∷ []) (inl refl), distinct, ground (arith, size))
  ]
    where
      longer : List String
      longer = append ids (h ∷ [])

      excess : ℕ
      excess = length longer - stuffing_limit t

      size : length longer ≡ length ids + 1
      size = length-append ids (h ∷ [])

      distinct : Distinct longer
      distinct = Distinct-snoc h ids (contains-All h ids new) d
