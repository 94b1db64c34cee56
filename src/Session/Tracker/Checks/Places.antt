-- ===== src/Session/Tracker/Checks/Places.antt =====
-- session/tracker.go: when a login from a network that a user is not known from is reported.
use mathlib.Core.List.{◌++◌ as append}
use security_go.Shared.{◌≡◌, String, List, [], Option, In}
use security_go.Shared.Time.{Instant}
use security_go.Session.{Store, IsStore, Request, Packages, Laws}
use security_go.Session.Tracker.{Tracker}
use security_go.Session.Tracker.Checks.{here}

module _ {S : Type 0} (p : Packages) (laws : Laws p) (store : Store S) (is : IsStore store)
    (t : Tracker) (now : Instant) where
  -- The user is known from some network, and this is none of them.
  abbrev pub IsElsewhere : Option Request → List String → Type 0
  IsElsewhere r nets = (¬ nets ≡ []) × ¬ In (here p store t now r) nets
