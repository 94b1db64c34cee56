-- ===== src/FileChecks/DataLeak.antt =====
-- file/data_leak.go: the detector `data_leak`.
use Prim.Native.String.{◌++◌}
use security_go.Shared.{
  ◌≡◌, refl, ap, ◌⊎◌, inl, inr, All, Bool-cases, String, List, [], ◌∷◌, ◌++◌ as append, true, false,
  if◌then◌else◌,
}
use security_go.Security.{Result, Regexp, clean, critical}

abbrev pub name : String
name = "data_leak"

-- The patterns, each with the name of what it finds.
abbrev pub leak_patterns : List (String × String)
leak_patterns =
    ("\\b(?:\\d[ -]*?){13,16}\\b", "Credit Card Number")
    ∷ ("(?i)AKIA[0-9A-Z]{16}", "AWS Access Key")
    ∷ ("-----BEGIN\\s+(?:RSA\\s+)?PRIVATE\\s+KEY-----", "Private Key")
    ∷ ("-----BEGIN\\s+CERTIFICATE-----", "Certificate")
    ∷ ("(?i)(?:jdbc|mysql|postgres|mongodb|redis|sqlserver)://[^/\\s]+", "DB Connection String")
    ∷ ("(?i)(?:api[_-]?key|apikey|api[_-]?secret|secret[_-]?key)\\s*[:=]\\s*['\"]?\\w+", "API Key")
    ∷ ("(?i)(?:access[_-]?token|auth[_-]?token|bearer)\\s*[:=]\\s*['\"]?\\w+", "Access Token")
    ∷ ("(?i)eyJ[A-Za-z0-9_-]{10,}\\.[A-Za-z0-9_-]{10,}\\.[A-Za-z0-9_-]*", "JWT Token")
    ∷ ("(?i)(?:password|passwd|pwd)\\s*[:=]\\s*['\"][^'\"]+['\"]", "Password in plaintext")
    ∷ ("(?i)sk-[A-Za-z0-9]{32,}", "OpenAI API Key")
    ∷ ("(?i)github[_-]?(?:token|pat)\\s*[:=]\\s*['\"]?[A-Za-z0-9_]+", "GitHub Token")
    ∷ ("(?i)ghp_[A-Za-z0-9]{36}", "GitHub Personal Access Token")
    ∷ []

abbrev pub found : String → Result
found leak = record {
  name = name;
  detected = true;
  message = "Sensitive data detected: " ++ leak;
  severity = critical;
  details = [];
}

unfoldable pub scan_leaks : Regexp → String → List (String × String) → Result
scan_leaks rx input [] = clean name
scan_leaks rx input ((pattern, leak) ∷ rest) =
    if rx.match_string pattern input then found leak else scan_leaks rx input rest

unfoldable pub detect : Regexp → String → Result
unfolding scan_leaks
detect rx input = scan_leaks rx input leak_patterns

module _ (rx : Regexp) (input : String) where
  -- No pattern of the list matches.
  abbrev pub Misses : List (String × String) → Type 0
  Misses = All (λ l. rx.match_string l.0 input ≡ false)

  -- A leak of the list whose pattern matches, after patterns that do not, is what the result reports.
  abbrev pub Reports : List (String × String) → Result → Type 0
  Reports leaks r =
      (before after : List (String × String)) × (pattern leak : String) × (leaks
        ≡ append before ((pattern, leak) ∷ after))
      × Misses before
      × (rx.match_string pattern input ≡ true)
      × (r ≡ found leak)

  scan_leaks-cases :
      (leaks : List (String × String))
      → Reports leaks (scan_leaks rx input leaks)
        ⊎ (Misses leaks × (scan_leaks rx input leaks ≡ clean name))
  unfolding scan_leaks
  scan_leaks-cases [] = inr (tt, refl)
  scan_leaks-cases ((pattern, leak) ∷ rest) = elim (Bool-cases (rx.match_string pattern input)) [
    | inl hit ↦ rw (hit, scan_leaks) (inl ([], rest, pattern, leak, refl, tt, hit, refl))
    | inr miss ↦ elim (scan_leaks-cases rest) [
      | inl (before, after, p, l, e, misses, hit, r) ↦
          rw (miss, scan_leaks)
            (inl (
              (pattern, leak) ∷ before,
              after,
              p,
              l,
              ap (λ ls. (pattern, leak) ∷ ls) e,
              (miss, misses),
              hit,
              r,
            ))
      | inr (misses, r) ↦ rw (miss, scan_leaks) (inr ((refl, misses), r))
    ]
  ]

  -- The input is reported as the leak of the first pattern that matches, and is clean if none does.
  pub data_leak-cases :
      Reports leak_patterns (detect rx input)
      ⊎ (Misses leak_patterns × (detect rx input ≡ clean name))
  unfolding detect
  data_leak-cases = scan_leaks-cases leak_patterns
