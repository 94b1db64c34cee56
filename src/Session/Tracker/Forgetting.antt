-- ===== src/Session/Tracker/Forgetting.antt =====
-- session/tracker.go, over any store that does not fail: when all that an operation stores is gone, on
-- every path through the operation.
use text.Mathlib.Text.{◌==◌}
use security_go.Shared.{
  ◌+◌, ◌≤◌, ◌<◌, ◌≡◌, refl, ◌∙◌, Bool, true, false, String, List, none, Fallible, ok, err, arith,
  ltb, Bool-cases, Option-cases, inl, inr,
}
use security_go.Shared.Time.{Instant, Duration}
use security_go.Session.{Store, IsStore, Packages}
use security_go.Session.Tracker.{M, ◌>>=◌, when, rest_of, save_nets}

module _ {S : Type 0} (store : Store S) where
  -- After `end`, every key reads as absent.
  abbrev pub IsForgotten : Instant → S → Type 0
  IsForgotten end s =
      (later : Instant) → end < later → (key : String) → store.load s later key ≡ ok none

  -- An operation that leaves it so, if it was before.
  abbrev pub Forgets : {B : Type 0} → Instant → (S → B × S) → Type 0
  Forgets end m = (s : S) → IsForgotten end s → IsForgotten end (m s).1

  pub rest_of-Forgets :
      {A B : Type 0} (end : Instant) (f : A → M S B) (r : Fallible A × S)
      → ((a : A) → Forgets end (f a))
      → IsForgotten end r.1
      → IsForgotten end (rest_of f r).1
  rest_of-Forgets end f (ok a, s) k g = k a s g
  rest_of-Forgets end f (err e, s) k g = g

  pub bind-Forgets :
      {A B : Type 0} (end : Instant) (m : M S A) (f : A → M S B)
      → Forgets end m
      → ((a : A) → Forgets end (f a))
      → Forgets end (m >>= f)
  bind-Forgets end m f h k s g = rest_of-Forgets end f (m s) k (h s g)

  pub when-Forgets :
      (end : Instant) (test : Bool) (m : M S (Unit {0})) → Forgets end m → Forgets end (when test m)
  when-Forgets end true m h = h
  when-Forgets end false m h = λ s g. g

  module _ (is : IsStore store) where
    pub save-Forgets :
        (end now : Instant) (k value : String) (ttl : Duration)
        → now + ttl ≤ end
        → Forgets end (λ s. store.save s now k value ttl)
    save-Forgets end now k value ttl h s f later over key =
        let gone : ltb (now + ttl) later ≡ true = ground arith in
        elim (Bool-cases (k == key)) [
          | inl same ↦ is.load-save s now later k key value ttl ∙ rw (same, gone) refl
          | inr other ↦ is.load-save s now later k key value ttl ∙ rw other (f later over key)
        ]

    pub delete-Forgets : (end : Instant) (k : String) → Forgets end (λ s. store.delete s k)
    delete-Forgets end k s f later over key = elim (Bool-cases (k == key)) [
      | inl same ↦ is.load-delete s later k key ∙ rw same refl
      | inr other ↦ is.load-delete s later k key ∙ rw other (f later over key)
    ]

    pub save_nets-Forgets :
        (p : Packages) (end now : Instant) (key : String) (ids : List String) (ttl : Duration)
        → now + ttl ≤ end
        → Forgets end (save_nets p store now key ids ttl)
    unfolding save_nets
    save_nets-Forgets p end now key ids ttl h s g = elim (Option-cases (p.marshal_texts ids)) [
      | inl bad ↦ rw (bad, save_nets) g
      | inr (value, e) ↦ rw (e, save_nets) (save-Forgets end now key value ttl h s g)
    ]
