-- ===== src/Agent/Identity.antt =====
-- internal/agent/identity.go: which certificate identity may be bound to an agent.
use seagull_backend_v.Base.{
  ℕ, ◌+◌, ◌≤◌, ◌<◌, ◌≡◌, ◌≢◌, ◌↔◌, Bool, true, false, not, ◌&&◌, ◌||◌, Option, none, some, [], map,
  arith, Text, text_Eq, text_eq_iff, nat_eq, ◌!=◌, ltb, leb, if◌then◌else◌, is_nil, length, Result,
  ok, err, ◌>>◌, refuse_if,
}
use seagull_backend_v.Identifier.{is_digit, is_upper, every}
use seagull_backend_v.Agent.Record.{Identity, Timestamp, Error, malformed_identity}

abbrev pub max_subject_length : ℕ
max_subject_length = 256

abbrev pub max_serial_length : ℕ
max_serial_length = 64

abbrev pub fingerprint_length : ℕ
fingerprint_length = 64

-- The three ranges of `hexadecimal`.
abbrev is_hexadecimal : ℕ → Bool
is_hexadecimal c = is_digit c || (leb b'a' c && leb c b'f') || (leb b'A' c && leb c b'F')

unfoldable pub hexadecimal : Text → Bool
unfolding every
hexadecimal value = every is_hexadecimal value && not (is_nil value)

-- `strings.ToLower`, on the ASCII that is left when it is called.
unfoldable pub to_lower : Text → Text
to_lower = map (λ c. if is_upper c then c + 32 else c)

pub serial : Text → Result Error (Unit {0})
serial value = do
  refuse_if (is_nil value) malformed_identity
  refuse_if (ltb max_serial_length (length value)) malformed_identity
  refuse_if (not (hexadecimal value)) malformed_identity

pub fingerprint : Text → Result Error (Unit {0})
unfolding to_lower
fingerprint value = do
  refuse_if (length value != fingerprint_length || not (hexadecimal value)) malformed_identity
  refuse_if (to_lower value != value) malformed_identity

-- The zero instant counts as no time said.
unfoldable pub said : Timestamp → Bool
said none = false
said (some t) = t != 0

abbrev instant : Timestamp → ℕ
instant none = 0
instant (some t) = t

pub validity : Timestamp → Timestamp → ℕ → Result Error (Unit {0})
unfolding said
validity issued expires now = do
  refuse_if (not (said expires)) malformed_identity
  refuse_if (said issued && leb (instant expires) (instant issued)) malformed_identity
  refuse_if (leb (instant expires) now) malformed_identity

unfoldable pub bindable_held : Text → Identity → ℕ → Result Error (Unit {0})
unfolding serial fingerprint validity
bindable_held agent_id held now = do
  refuse_if (held.subject != agent_id) malformed_identity
  refuse_if (ltb max_subject_length (length held.subject)) malformed_identity
  serial held.serial
  fingerprint held.fingerprint_sha256
  validity held.issued_at held.expires_at now

unfoldable pub bindable : Text → Option Identity → ℕ → Result Error (Unit {0})
unfolding bindable_held
bindable agent_id none now = err malformed_identity
bindable agent_id (some held) now = bindable_held agent_id held now

-- What makes an identity usable, stated without the order the checks are made in.
pub record IsUsable (agent_id : Text) (held : Identity) (now : ℕ) : Type 0 where
  pub names_agent : held.subject ≡ agent_id
  pub subject_fits : length agent_id ≤ max_subject_length
  pub serial_said : held.serial ≢ []
  pub serial_fits : length held.serial ≤ max_serial_length
  pub serial_hex : hexadecimal held.serial ≡ true
  pub fingerprint_fits : length held.fingerprint_sha256 ≡ fingerprint_length
  pub fingerprint_hex : hexadecimal held.fingerprint_sha256 ≡ true
  pub fingerprint_lower : to_lower held.fingerprint_sha256 ≡ held.fingerprint_sha256
  pub expiry_said : said held.expires_at ≡ true
  pub outlives_now : now < instant held.expires_at
  pub outlives_issue : said held.issued_at ≡ true → instant held.issued_at < instant held.expires_at

-- A certificate identity is bound exactly when it is usable: it names the agent within the bound
-- on subjects, its serial is hexadecimal and at most as long as a serial may be, its fingerprint
-- is lower case hexadecimal of the length of a SHA-256 digest, and it says an expiry that is
-- after now and, where it says when it was issued, after that.
pub bindable_iff :
    (agent_id : Text) (held : Identity) (now : ℕ)
    → (bindable agent_id (some held) now ≡ ok tt) ↔ IsUsable agent_id held now
unfolding bindable
bindable_iff agent_id held now = (
  λ h. ground (
    arith,
    text_eq_iff held.subject agent_id,
    text_eq_iff (to_lower held.fingerprint_sha256) held.fingerprint_sha256,
  ),
  λ u. ground (
    arith,
    text_eq_iff held.subject agent_id,
    text_eq_iff (to_lower held.fingerprint_sha256) held.fingerprint_sha256,
  ),
)
