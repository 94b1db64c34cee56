-- ===== src/FileChecks/Extension.antt =====
-- file/upload.go: the checks of a file's extension.
--
-- Packages path/filepath and strings are an argument: `ext` is `strings.ToLower(filepath.Ext(_))`.
use Prim.Native.String.{◌++◌}
use security_go.Shared.{
  ◌≡◌, refl, String, List, [], ◌∷◌, Bool, true, false, not, some, none, if◌then◌else◌,
}
use security_go.Shared.Assoc.{lookup}
use security_go.Security.{Result, clean, medium}
use security_go.FileChecks.Upload.{name}
use text.Mathlib.Text.{◌==◌}

abbrev pub allowed_ext : List (String × Bool)
allowed_ext =
    (".jpg", true)
    ∷ (".jpeg", true)
    ∷ (".png", true)
    ∷ (".gif", true)
    ∷ (".webp", true)
    ∷ (".pdf", true)
    ∷ (".doc", true)
    ∷ (".docx", true)
    ∷ (".xls", true)
    ∷ (".xlsx", true)
    ∷ (".txt", true)
    ∷ (".csv", true)
    ∷ (".mp4", true)
    ∷ (".mp3", true)
    ∷ (".zip", true)
    ∷ []

-- `allowedExt[ext]`, which is false for a missing key.
unfoldable is_allowed : String → Bool
unfolding lookup
is_allowed e = elim (lookup e allowed_ext) [ some b ↦ b | none ↦ false ]

abbrev pub refused : String → Result
refused message = record {
  name = name;
  detected = true;
  message = message;
  severity = medium;
  details = [];
}

refused_lem :
    (x y : Bool) (m n : String)
    → (if x then refused m else (if not y then refused n else clean name)).detected
      ≡ (if x then true else not y)
refused_lem true y m n = refl
refused_lem false true m n = refl
refused_lem false false m n = refl

module _ (ext : String → String) where
  unfoldable pub has_malicious_ext : String → Bool
  unfolding is_allowed
  has_malicious_ext filename = if ext filename == "" then true else not (is_allowed (ext filename))

  unfoldable pub check_extension : String → Result
  unfolding is_allowed
  check_extension filename =
      if ext filename == ""
      then refused "File has no extension"
      else (if not (is_allowed (ext filename))
          then refused ("File extension not allowed: " ++ filename)
          else clean name)

  -- The check of a file name reports it exactly if the test of its extension does.
  pub check_extension_agrees :
      (filename : String) → (check_extension filename).detected ≡ has_malicious_ext filename
  unfolding has_malicious_ext check_extension
  check_extension_agrees filename =
      refused_lem (ext filename == "") (is_allowed (ext filename)) "File has no extension"
        ("File extension not allowed: " ++ filename)
