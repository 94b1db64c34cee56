-- ===== src/Session/Signer/Ordering.antt =====
-- session/tamper.go: the text that is signed does not depend on the order of the range over the map.
use mathlib.Core.List.{Permᴰ}
use security_go.Shared.{
  ◌≡◌, ◌≢◌, refl, sym, ap, ap₂, ◌∙◌, inl, inr, true, false, String, List, [], ◌∷◌, Bool-cases,
  subst,
}
use security_go.Shared.Assoc.{IsMap, Fresh}
use security_go.Shared.Text.{before, before_trans, before-cases}
use security_go.Session.Signer.{Packages, insert_sorted, sort, canonical}

abbrev Pairs : Type 0
Pairs = List (String × String)

ordered_comm :
    (k v j w : String) (m : Pairs)
    → before k j ≡ true
    → before j k ≡ false
    → insert_sorted k v (insert_sorted j w m) ≡ insert_sorted j w (insert_sorted k v m)
unfolding insert_sorted
ordered_comm k v j w [] kj not_jk = rw (kj, not_jk) refl
ordered_comm k v j w ((i, x) ∷ m) kj not_jk = elim (Bool-cases (before j i)) [
  | inl ji ↦ rw (ji, before_trans k j i kj ji, kj, not_jk, ji) refl
  | inr not_ji ↦ elim (Bool-cases (before k i)) [
    | inl ki ↦ rw (not_ji, ki, not_jk, not_ji) refl
    | inr not_ki ↦
        rw (not_ji, not_ki, not_ji) (ap (λ rest. (i, x) ∷ rest) (ordered_comm k v j w m kj not_jk))
  ]
]

-- Entries with different keys go to their places in either order.
insert_sorted_comm :
    (k v j w : String) (m : Pairs)
    → k ≢ j
    → insert_sorted k v (insert_sorted j w m) ≡ insert_sorted j w (insert_sorted k v m)
insert_sorted_comm k v j w m n = elim (before-cases k j n) [
  | inl (kj, not_jk) ↦ ordered_comm k v j w m kj not_jk
  | inr (not_kj, jk) ↦ sym (ordered_comm j w k v m jk not_kj)
]

Fresh-Permᴰ : {m m' : Pairs} (k : String) → Permᴰ m m' → Fresh k m → Fresh k m'
Fresh-Permᴰ k Permᴰ.nil f = f
Fresh-Permᴰ k (Permᴰ.cons e q) (n, f) = (λ h. n (ap (λ a. a.0) e ∙ h), Fresh-Permᴰ k q f)
Fresh-Permᴰ k (Permᴰ.swap e e') (n, (n', f)) =
    (λ h. n' (ap (λ a. a.0) e' ∙ h), (λ h. n (ap (λ a. a.0) e ∙ h), f))
Fresh-Permᴰ k (Permᴰ.trans q r) f = Fresh-Permᴰ k r (Fresh-Permᴰ k q f)

IsMap-Permᴰ : {m m' : Pairs} → Permᴰ m m' → IsMap m → IsMap m'
IsMap-Permᴰ Permᴰ.nil h = tt
IsMap-Permᴰ (Permᴰ.cons {l₂ = l'} e q) (f, h) =
    (subst (λ (a : String × String). Fresh a.0 l') e (Fresh-Permᴰ _ q f), IsMap-Permᴰ q h)
IsMap-Permᴰ (Permᴰ.swap {l = l} e e') ((n, f), (g, h)) = (
  (
    λ q. n (ap (λ a. a.0) e' ∙ sym q ∙ sym (ap (λ a. a.0) e)),
    subst (λ (a : String × String). Fresh a.0 l) e' g,
  ),
  (subst (λ (a : String × String). Fresh a.0 l) e f, h),
)
IsMap-Permᴰ (Permᴰ.trans q r) h = IsMap-Permᴰ r (IsMap-Permᴰ q h)

sort-Permᴰ : {m m' : Pairs} → Permᴰ m m' → IsMap m → sort m ≡ sort m'
unfolding sort
sort-Permᴰ Permᴰ.nil h = refl
sort-Permᴰ (Permᴰ.cons e q) (f, h) =
    ap₂ (λ (a : String × String) rest. insert_sorted a.0 a.1 rest) e (sort-Permᴰ q h)
sort-Permᴰ (Permᴰ.swap {a = a} {b = b} {l = l} e e') ((n, f), h) =
    insert_sorted_comm a.0 a.1 b.0 b.1 (sort l) (λ q. n (sym q))
    ∙ ap₂ (λ (x y : String × String). insert_sorted x.0 x.1 (insert_sorted y.0 y.1 (sort l))) e' e
sort-Permᴰ (Permᴰ.trans q r) h = sort-Permᴰ q h ∙ sort-Permᴰ r (IsMap-Permᴰ q h)

-- In whatever order the map of parameters is ranged over, the same text is signed.
pub canonical-perm :
    (p : Packages) (params params' : Pairs)
    → Permᴰ params params'
    → IsMap params
    → canonical p params ≡ canonical p params'
unfolding canonical
canonical-perm p params params' q h = rw (sort-Permᴰ q h) refl
