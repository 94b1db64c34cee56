-- ===== src/Session/Signer/Tests.antt =====
-- session/tamper.go: an example of the packages, and examples of the theorems.
use Prim.Native.Char.{code}
use Prim.Native.String.{◌++◌, [] as eps, ◌∷◌ as cons}
use mathlib.Core.List.{Permᴰ}
use text.Mathlib.Text.{◌==◌ as str_eq}
use text.Mathlib.TextEquality.{Char-path}
use security_go.Shared.{
  ℕ, zero, suc, ◌+◌, ◌*◌, ◌≡◌, refl, sym, ap, ap₂, ◌∙◌, inl, inr, true, false, String, List, [],
  ◌∷◌, Option, some, none, ok, ◌≢◌, true_not_false, eq_iff, ◌⊎◌, ◌==◌, if◌then◌else◌, arith,
  Bool-cases,
}
use security_go.Shared.Int.{ℤ, pos, negsuc}
use security_go.Shared.Codec.{strokes, count, count-strokes}
use security_go.Shared.Text.{before, split, lacks, lacks-append, cut-injective_at, uncut}
use security_go.Shared.Time.{Instant, second}
use security_go.Shared.Assoc.{IsMap, lookup, insert, retain}
use security_go.Security.{clean}
use security_go.Storage.Memory.{Memory, new_memory, memory_backend, incr, incr_event, reap_once}
use security_go.Session.Signer.{
  Packages, Laws, Signer, signer_name, new_signer, newline, unix_epoch, mac, message, sign, verify,
  canonical, encode, insert_sorted, internal_seconds, is_stale, pair, saturate, skew, sort, stale,
  use_nonce, verify_at, verify_parts,
}
use security_go.Session.Signer.Replay.{after, reaps, verify_once}
use security_go.Session.Signer.Tampering.{verify-sign, verify-tampered, Collides}

lacks-strokes : (n k : ℕ) → (b'I' == n) ≡ false → lacks n (strokes k) ≡ true
unfolding lacks strokes
lacks-strokes n zero h = refl
lacks-strokes n (suc k) h = rw (h, lacks-strokes n k h) refl

-- Each character as the strokes of its number and an end.
escape : String → String
escape eps = ""
escape (cons c s) = strokes (code c) ++ (";" ++ escape s)

lacks-escape :
    (n : ℕ) (s : String) → (b'I' == n) ≡ false → (b';' == n) ≡ false → lacks n (escape s) ≡ true
unfolding lacks escape
lacks-escape n eps h k = refl
lacks-escape n (cons c s) h k =
    lacks-append n (strokes (code c)) ((";" ++ escape s)) (lacks-strokes n (code c) h)
      (lacks-append n ";" (escape s) (rw k refl) (lacks-escape n s h k))

escape-injective : (s t : String) → escape s ≡ escape t → s ≡ t
unfolding escape lacks
escape-injective eps eps e = refl
escape-injective eps (cons d t) e =
    absurd (uncut b';' ";" "" (strokes (code d)) (escape t) refl refl e)
escape-injective (cons c s) eps e =
    absurd (uncut b';' ";" "" (strokes (code c)) (escape s) refl refl (sym e))
escape-injective (cons c s) (cons d t) e =
    let (a, b) =
      cut-injective_at b';' ";" (strokes (code c)) (strokes (code d)) (escape s) (escape t) refl
        (lacks-strokes b';' (code c) refl) (lacks-strokes b';' (code d) refl) e in
    let numbers = sym (count-strokes (code c)) ∙ ap count a ∙ count-strokes (code d) in
    ap₂ cons (Char-path c d numbers) (escape-injective s t b)

-- Numbers as strokes, and a negative one as none.
format_int : ℤ → String
format_int (pos n) = strokes n
format_int (negsuc n) = ""

parse_int : String → Option ℤ
parse_int s = if lacks newline s then some (pos (count s)) else none

unfoldable packages : Packages
packages = record {
  hmac = λ key message. strokes (count (key ++ message));
  hex = escape;
  escape = escape;
  format_int = format_int;
  parse_int = parse_int;
  show_duration = strokes;
}

laws : Laws packages
unfolding packages format_int parse_int
laws = record {
  lacks-hmac = λ key message. lacks-strokes b'.' (count (key ++ message)) refl;
  lacks-hex = λ bytes. lacks-escape b'.' bytes refl refl;
  lacks-format_int = λ n. lacks-strokes b'.' n refl;
  parse_int-format_int = λ n small. rw (lacks-strokes newline n refl, count-strokes n) refl;
  lacks-parse_int = λ s n e. elim (Bool-cases (lacks newline s)) [
    | inl one_line ↦ one_line
    | inr more ↦ cc (rw more at e)
  ];
  lacks-escape = λ s. (
    lacks-escape b'&' s refl refl,
    lacks-escape b'=' s refl refl,
    lacks-escape newline s refl refl,
  );
  escape-injective = escape-injective;
}

-- Five seconds after the start of 1970.
abbrev signed_at : Instant
signed_at = unix_epoch * second + 5 * second

abbrev order : List (String × String)
order = ("a", "1") ∷ ("b", "2") ∷ []

abbrev order_ranged : List (String × String)
order_ranged = ("b", "2") ∷ ("a", "1") ∷ []

abbrev signer : Signer
signer = new_signer "k"

differs : (x y : String) → str_eq x y ≡ false → x ≢ y
differs x y h e = true_not_false ((eq_iff x y).1 e) h

order-IsMap : IsMap order
order-IsMap = ((differs "b" "a" refl, tt), (tt, tt))

ranged : Permᴰ order order_ranged
ranged = Permᴰ.swap refl refl

verify-sign_example :
    (sig : String) × (sign packages signer signed_at (ok "r") order ≡ ok sig)
    × (verify packages signer none (signed_at + 2 * second) order_ranged sig new_memory
        ≡ (clean signer_name, new_memory))
    × ((verify packages signer
          (some memory_backend)
          (signed_at + 2 * second)
          order_ranged
          sig
          new_memory).0
        ≡ clean signer_name)
unfolding packages escape new_signer lookup new_memory
verify-sign_example =
    verify-sign packages laws signer signed_at (signed_at + 2 * second) "r" order order_ranged
      new_memory refl order-IsMap ranged (omega arith) (omega arith) (omega arith) (omega arith)
      refl

abbrev time : String
time = "IIIII"

abbrev nonce : String
nonce = "r"

-- A signature of those parameters.
abbrev signature : String
signature = time ++ ("." ++ (nonce ++ ("." ++ mac packages signer order time nonce)))

verify_once_example :
    (verify packages signer (some memory_backend) (signed_at + 2 * second) order_ranged signature (
      after packages signer
        (verify packages signer (some memory_backend) signed_at order signature new_memory).1
        ((signed_at + second, reaps) ∷ []))).0.detected
    ≡ true
unfolding packages escape format_int parse_int lacks strokes count new_signer verify mac message
    canonical encode insert_sorted internal_seconds is_stale pair saturate skew sort stale use_nonce
    verify_at verify_parts insert split incr incr_event before lookup retain reap_once after
    new_memory memory_backend
verify_once_example =
    verify_once packages signer order order_ranged signature [] signed_at (signed_at + 2 * second)
      ((signed_at + second, reaps) ∷ []) (omega arith) (omega arith, omega arith) refl

verify-tampered_example :
    (((key : String) → lookup key order ≡ lookup key order_ranged)
      × (time ≡ time)
      × (nonce ≡ nonce))
    ⊎ Collides packages laws signer order time nonce order_ranged time nonce
unfolding packages escape format_int parse_int lacks strokes count new_signer verify mac message
    canonical encode insert_sorted internal_seconds is_stale pair saturate skew sort stale use_nonce
    verify_at verify_parts split before
verify-tampered_example =
    verify-tampered packages laws signer {S = Memory} none signed_at order order_ranged time nonce
      time nonce signature new_memory order-IsMap ((differs "a" "b" refl, tt), (tt, tt)) refl refl
      refl
