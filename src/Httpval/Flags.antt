-- ===== src/Httpval/Flags.antt =====
-- A Go `map[string]bool` that is used as a set: a missing key reads as false.
use text.Mathlib.Text.{◌==◌}
use security_go.Shared.{
  ◌≡◌, refl, ◌⊎◌, inl, inr, ◌↔◌, Bool, true, false, String, List, [], ◌∷◌, Option, none, some, In,
  Bool-cases, eq_iff, true_not_false,
}
use security_go.Shared.Assoc.{lookup, insert, lookup-insert}

abbrev pub flag : Option Bool → Bool
flag none = false
flag (some b) = b

-- The loop that sets the key of each text.
unfoldable pub mark_all : List String → List (String × Bool) → List (String × Bool)
mark_all [] m = m
mark_all (k ∷ ks) m = mark_all ks (insert k true m)

flag-insert_iff :
    (k key : String) (m : List (String × Bool))
    → (flag (lookup key (insert k true m)) ≡ true) ↔ ((k ≡ key) ⊎ (flag (lookup key m) ≡ true))
flag-insert_iff k key m = rw (lookup-insert k key true m) (elim (Bool-cases (k == key)) [
  | inl same ↦ rw same (λ h. inl ((eq_iff k key).0 same), λ h. refl)
  | inr other ↦ rw other (
    λ h. inr h,
    λ h. elim h [ inl e ↦ absurd (true_not_false ((eq_iff k key).1 e) other) | inr set ↦ set ],
  )
])

flag-mark_all_iff :
    (key : String) (ks : List String) (m : List (String × Bool))
    → (flag (lookup key (mark_all ks m)) ≡ true) ↔ (In key ks ⊎ (flag (lookup key m) ≡ true))
unfolding mark_all
flag-mark_all_iff key [] m = (λ h. inr h, λ h. elim h [ inl e ↦ elim e [ ] | inr set ↦ set ])
flag-mark_all_iff key (k ∷ ks) m =
    let (there, back) = flag-mark_all_iff key ks (insert k true m) in
    let (split, join) = flag-insert_iff k key m in
    (
      λ h. elim (there h) [
        | inl later ↦ inl (inr later)
        | inr set ↦ elim (split set) [ inl e ↦ inl (inl e) | inr old ↦ inr old ]
      ],
      λ h. elim h [
        | inl (inl e) ↦ back (inr (join (inl e)))
        | inl (inr later) ↦ back (inl later)
        | inr old ↦ back (inr (join (inr old)))
      ],
    )

-- A key is set in the map of the texts exactly if it is one of them.
pub flag-mark_all-In :
    (key : String) (ks : List String) → (flag (lookup key (mark_all ks [])) ≡ true) ↔ In key ks
unfolding lookup
flag-mark_all-In key ks =
    let (there, back) = flag-mark_all_iff key ks [] in
    (λ h. elim (there h) [ inl e ↦ e | inr unset ↦ cc ], λ h. back (inl h))
