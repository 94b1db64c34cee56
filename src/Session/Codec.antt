-- ===== src/Session/Codec.antt =====
-- Concrete packages that satisfy their laws, for the examples.
use security_go.Shared.{◌≡◌, refl, ap, ◌*◌, ◌/◌, String, List, [], ◌∷◌, Option, none, some, true}
use security_go.Shared.Codec.{
  strokes, count, mark, push, encode, decode, count-strokes, decode-encode,
}
use text.Mathlib.Text.{◌==◌}
use security_go.Shared.Time.{second}
use security_go.Session.{Packages, Laws, Session}

encode_session : Session → String
encode_session s = encode (
    s.ip
    ∷ s.user_agent
    ∷ s.fingerprint
    ∷ s.country
    ∷ strokes s.issued_at
    ∷ strokes s.last_seen
    ∷ [])

session_of : List String → Option Session
session_of (ip ∷ agent ∷ mark_of ∷ country ∷ issued ∷ seen ∷ []) = some (record {
  ip = ip;
  user_agent = agent;
  fingerprint = mark_of;
  country = country;
  issued_at = count issued;
  last_seen = count seen;
})
session_of _ = none

session_of-encode_session : (s : Session) → session_of (decode (encode_session s)) ≡ some s
unfolding session_of encode_session
session_of-encode_session s =
    rw
      (
        decode-encode (
            s.ip
            ∷ s.user_agent
            ∷ s.fingerprint
            ∷ s.country
            ∷ strokes s.issued_at
            ∷ strokes s.last_seen
            ∷ []),
        count-strokes s.issued_at,
        count-strokes s.last_seen,
      )
      refl

-- An address is its number, in strokes, and is not taken apart.
unfoldable pub packages : Packages
unfolding strokes count mark push encode decode encode_session session_of
packages = record {
  hash = λ s. s;
  itoa = strokes;
  atoi = count;
  trim_space = λ s. s;
  equal_fold = ◌==◌;
  format_time = λ t. strokes (t / second);
  parse_time = λ s. some (count s * second);
  marshal_texts = λ ss. some (encode ss);
  unmarshal_texts = λ s. some (decode s);
  marshal_session = λ s. some (encode_session s);
  unmarshal_session = λ s. session_of (decode s);
  parse_ip = λ s. some (record { is_v4 = true; address = count s });
  show_ip = λ ip. strokes ip.address;
  mask = λ ip bits. ip;
  split_host = λ s. some s;
  before_comma = λ s. s;
  valid = λ s. true;
}

pub packages-Laws : Laws packages
unfolding packages
packages-Laws = record {
  atoi-itoa = count-strokes;
  parse_time-format_time = λ t. ap (λ n. some (n * second)) (count-strokes (t / second));
  unmarshal_texts-marshal_texts = λ ids. (encode ids, refl, ap some (decode-encode ids));
  unmarshal_session-marshal_session =
      λ s. (encode_session s, refl, λ h. session_of-encode_session s);
}
