-- ===== src/Session/Tracker/Running.antt =====
-- One step of an operation on the store.
use security_go.Shared.{◌≡◌, ap, ok, err, String}
use security_go.Session.Tracker.{M, ◌>>=◌, rest_of}

module _ {S : Type 0} {A B : Type 0} where
  -- A step that succeeds hands its value and store to the rest.
  pub bind-ok :
      (m : M S A) (f : A → M S B) (s : S) {a : A} {s' : S} → m s ≡ (ok a, s') → (m >>= f) s ≡ f a s'
  bind-ok m f s h = ap (rest_of f) h

  -- A step that fails ends the operation.
  pub bind-err :
      (m : M S A) (f : A → M S B) (s : S) {e : String} {s' : S}
      → m s ≡ (err e, s')
      → (m >>= f) s ≡ (err e, s')
  bind-err m f s h = ap (rest_of f) h
