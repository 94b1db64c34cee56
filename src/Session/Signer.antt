-- ===== src/Session/Signer.antt =====
-- session/tamper.go: parameters that are signed with a time and a nonce.
--
-- Packages crypto/hmac with crypto/sha256 and encoding/base64, encoding/hex, net/url and strconv are the
-- fields of `Packages`. Twice the skew that is allowed is a duration, so it does not overflow.
pub mod Canonical
pub mod Ordering
pub mod Cases
pub mod Nonces
pub mod Replay
pub mod Tampering
mod Tests
use Prim.Native.String.{◌++◌}
use text.Mathlib.Text.{◌==◌}
use security_go.Shared.{
  ℕ, ◌+◌, ◌-◌, ◌*◌, ◌/◌, ◌^◌, ◌<◌, ◌≡◌, min, Bool, true, false, not, ◌||◌, String, List, [], ◌∷◌,
  Option, none, some, Fallible, ok, err, ltb, leb, if◌then◌else◌,
}
use security_go.Shared.Int.{ℤ, pos, negsuc, positive_or, sub_ℕ, lt_ℤ}
use security_go.Shared.Text.{split, before, lacks}
use security_go.Shared.Time.{Instant, Duration, max_duration, second, minute}
use security_go.Security.{Result, clean, high, critical}
use security_go.Session.{deny}
use security_go.Storage.{Backend}

-- `hmac key message` is the HMAC-SHA256 in unpadded URL-safe base64; `parse_int` is `none` on an error.
pub record Packages : Type 0 where
  pub hmac : String → String → String
  pub hex : String → String
  pub escape : String → String
  pub format_int : ℤ → String
  pub parse_int : String → Option ℤ
  pub show_duration : Duration → String

abbrev pub dot : ℕ
dot = b'.'

abbrev pub newline : ℕ
newline = b'\n'

-- The documented behaviour of those packages that the theorems rest on. `QueryEscape` leaves letters,
-- digits and a few marks, of which none is `&`, `=` or a line break, and `QueryUnescape` undoes it.
pub record Laws (p : Packages) : Type 0 where
  pub lacks-hmac : (key message : String) → lacks dot (p.hmac key message) ≡ true
  pub lacks-hex : (bytes : String) → lacks dot (p.hex bytes) ≡ true
  pub lacks-format_int : (n : ℕ) → lacks dot (p.format_int (pos n)) ≡ true
  pub parse_int-format_int :
      (n : ℕ) → n < 2 ^ 63 → p.parse_int (p.format_int (pos n)) ≡ some (pos n)
  pub lacks-parse_int : (s : String) (n : ℤ) → p.parse_int s ≡ some n → lacks newline s ≡ true
  pub lacks-escape :
      (s : String)
      → (lacks b'&' (p.escape s) ≡ true)
        × (lacks b'=' (p.escape s) ≡ true)
        × (lacks newline (p.escape s) ≡ true)
  pub escape-injective : (s t : String) → p.escape s ≡ p.escape t → s ≡ t

-- The nonces are counted in a backend, which is an argument of `verify`.
pub record Signer : Type 0 where
  pub secret : String
  pub max_skew : ℤ

abbrev pub default_max_skew : Duration
default_max_skew = 5 * minute

unfoldable pub new_signer : String → Signer
new_signer secret = record { secret = secret; max_skew = pos default_max_skew }

abbrev pub signer_name : String
signer_name = "data_tamper"

abbrev pub max_skew : Signer → Duration
max_skew s = positive_or s.max_skew default_max_skew

-- An entry, in front of those with greater keys. The keys of a map are different.
unfoldable pub insert_sorted : String → String → List (String × String) → List (String × String)
insert_sorted k v [] = (k, v) ∷ []
insert_sorted k v ((j, w) ∷ m) =
    let later = insert_sorted k v m in if before k j then (k, v) ∷ (j, w) ∷ m else (j, w) ∷ later

-- The entries of a map in the order of their keys.
unfoldable pub sort : List (String × String) → List (String × String)
unfolding insert_sorted
sort [] = []
sort ((k, v) ∷ m) = insert_sorted k v (sort m)

-- The seconds of the zero `time.Time` before 1970.
abbrev pub unix_epoch : ℕ
unix_epoch = 62_135_596_800

-- `Time.Unix`.
unfoldable pub unix : Instant → ℤ
unix now = sub_ℕ (now / second) unix_epoch

-- The two parts of the seconds that `time.Unix` counts from the zero time: the first less the second.
-- The sum with the epoch wraps around in 64 bits.
unfoldable pub internal_seconds : ℤ → ℕ × ℕ
internal_seconds (pos n) =
    if ltb (n + unix_epoch) (2 ^ 63) then (n + unix_epoch, 0) else (n + unix_epoch, 2 ^ 64)
internal_seconds (negsuc n) = (unix_epoch, n + 1)

-- A difference of times is cut off at the greatest and the least duration.
unfoldable pub saturate : ℤ → ℤ
saturate (pos n) = pos (min n max_duration)
saturate (negsuc n) = negsuc (min n max_duration)

-- `time.Since(time.Unix(secs, 0))`
unfoldable pub skew : Instant → ℤ → ℤ
unfolding internal_seconds saturate
skew now secs =
    let t = internal_seconds secs in saturate (sub_ℕ (now + t.1 * second) (t.0 * second))

module _ (p : Packages) where
  -- The text of one parameter.
  unfoldable pub pair : String → String → String
  pair k v = p.escape k ++ ("=" ++ p.escape v)

  -- `url.Values.Encode`, of entries in order.
  unfoldable pub encode : List (String × String) → String
  unfolding pair
  encode [] = ""
  encode ((k, v) ∷ []) = pair k v
  encode ((k, v) ∷ e ∷ m) = pair k v ++ ("&" ++ encode (e ∷ m))

  unfoldable pub canonical : List (String × String) → String
  unfolding sort encode
  canonical params = encode (sort params)

  -- What is written to the hash.
  unfoldable pub message : List (String × String) → String → String → String
  unfolding canonical
  message params ts nonce = canonical params ++ ("\n" ++ (ts ++ ("\n" ++ nonce)))

  module _ (s : Signer) where
    unfoldable pub mac : List (String × String) → String → String → String
    unfolding message
    mac params ts nonce = p.hmac s.secret (message params ts nonce)

    -- `random` is what `rand.Read` gives: the bytes, or an error.
    unfoldable pub sign : Instant → Fallible String → List (String × String) → Fallible String
    unfolding mac unix
    sign now random params =
        if s.secret == "" then err "session: signer has no secret" else elim random [
          | err e ↦ err e
          | ok bytes ↦
              let ts = p.format_int (unix now) in
              let nonce = p.hex bytes in ok (ts ++ ("." ++ (nonce ++ ("." ++ mac params ts nonce))))
        ]

    -- The time is outside the skew that is allowed.
    unfoldable pub is_stale : Instant → ℤ → Bool
    unfolding skew
    is_stale now secs =
        lt_ℤ (pos (max_skew s)) (skew now secs) || lt_ℤ (skew now secs) (sub_ℕ 0 (max_skew s))

    unfoldable pub stale : Instant → ℤ → Result
    unfolding skew
    stale now secs =
        deny signer_name
          (if lt_ℤ (skew now secs) (pos 0) then "timestamp_in_future" else "signature_expired")
          ("signature timestamp outside ±" ++ p.show_duration (max_skew s)) high

    module _ {S : Type 0} (nonces : Option (Backend S)) (now : Instant) where
      -- The replay check. An error of the backend lets the signature through.
      unfoldable pub use_nonce : String → S → Result × S
      use_nonce nonce st = elim nonces [
        | none ↦ (clean signer_name, st)
        | some b ↦
            let r = b.incr st now ("sig:" ++ nonce) (2 * max_skew s) in
            elim r.0 [
              | err e ↦ (clean signer_name, r.1)
              | ok count ↦
                  if ltb 1 count
                  then (
                    deny signer_name "replay" "signature nonce has already been used" critical,
                    r.1,
                  )
                  else (clean signer_name, r.1)
            ]
      ]

      unfoldable pub verify_at :
          List (String × String) → ℤ → String → String → String → S → Result × S
      unfolding is_stale stale use_nonce
      verify_at params secs ts nonce sent st =
          if is_stale now secs
          then (stale now secs, st)
          else if not (sent == mac params ts nonce)
          then (
            deny signer_name "signature_mismatch" "parameters do not match the signature" critical,
            st,
          )
          else use_nonce nonce st

      unfoldable pub verify_parts : List (String × String) → List String → S → Result × S
      unfolding verify_at
      verify_parts params (ts ∷ nonce ∷ sent ∷ []) st = elim (p.parse_int ts) [
        | none ↦
            (deny signer_name "timestamp_invalid" "signature timestamp is not a unix time" high, st)
        | some secs ↦ verify_at params secs ts nonce sent st
      ]
      verify_parts params _ st = (
        deny signer_name "signature_malformed" "signature must have exactly three parts" high,
        st,
      )

      unfoldable pub verify : List (String × String) → String → S → Result × S
      unfolding verify_parts split
      verify params sig st =
          if s.secret == ""
          then (
            deny signer_name "signer_not_configured"
                "signer has no secret; refusing to trust unsigned data" critical,
            st,
          )
          else verify_parts params (split dot sig) st
