-- ===== src/Identifier.antt =====
-- The identifier patterns of internal/agentidentity/identity.go, internal/event/validate.go and
-- internal/authz: one leading class, then at most `most` further bytes of another class. Every
-- class is ASCII, so a pattern over runes accepts the texts that it accepts over bytes.
use seagull_backend_v.Base.{
  ℕ, ◌≤◌, ◌<◌, ◌≡◌, Bool, true, false, ◌&&◌, ◌||◌, [], ◌∷◌, arith, Text, leb, ◌==◌, length, nat_eq,
}

abbrev pub is_digit : ℕ → Bool
is_digit c = leb b'0' c && leb c b'9'

abbrev pub is_lower : ℕ → Bool
is_lower c = leb b'a' c && leb c b'z'

abbrev pub is_upper : ℕ → Bool
is_upper c = leb b'A' c && leb c b'Z'

unfoldable pub is_alphanumeric : ℕ → Bool
is_alphanumeric c = is_digit c || is_lower c || is_upper c

-- `[A-Za-z0-9._-]`, the further bytes of an agent identifier.
pub is_agent_byte : ℕ → Bool
unfolding is_alphanumeric
is_agent_byte c = is_alphanumeric c || c == b'.' || c == b'_' || c == b'-'

-- `[A-Za-z0-9._:-]`, the further bytes of an identifier of the event contract.
pub is_identifier_byte : ℕ → Bool
unfolding is_agent_byte
is_identifier_byte c = is_agent_byte c || c == b':'

-- `[A-Za-z0-9._:@-]`, the further bytes of a subject.
pub is_subject_byte : ℕ → Bool
unfolding is_identifier_byte
is_subject_byte c = is_identifier_byte c || c == b'@'

-- `[a-z0-9-]`, the further bytes of a role name.
pub is_role_byte : ℕ → Bool
is_role_byte c = is_lower c || is_digit c || c == b'-'

unfoldable pub every : (ℕ → Bool) → Text → Bool
every p [] = true
every p (c ∷ s) = p c && every p s

-- `^[first][further]{0,most}$`.
unfoldable pub matches : (ℕ → Bool) → (ℕ → Bool) → ℕ → Text → Bool
unfolding every
matches first further most [] = false
matches first further most (c ∷ s) = first c && leb (length s) most && every further s

-- `agentidentity.Valid`.
unfoldable pub valid_agent_id : Text → Bool
unfolding matches is_agent_byte
valid_agent_id = matches is_alphanumeric is_agent_byte 63

-- `event.ValidIdentifier`.
unfoldable pub valid_identifier : Text → Bool
unfolding matches is_identifier_byte
valid_identifier = matches is_alphanumeric is_identifier_byte 63

-- `authz.ValidSubject`.
unfoldable pub valid_subject : Text → Bool
unfolding matches is_subject_byte
valid_subject = matches is_alphanumeric is_subject_byte 127

-- `authz.ValidRole`.
unfoldable pub valid_role : Text → Bool
unfolding matches is_role_byte
valid_role = matches is_lower is_role_byte 63

pub every_mono :
    (p q : ℕ → Bool)
    → ((c : ℕ) → p c ≡ true → q c ≡ true)
    → (s : Text) → every p s ≡ true
    → every q s ≡ true
unfolding every
every_mono p q h [] e = e
every_mono p q h (c ∷ s) e = ground (arith, h c, every_mono p q h s)

agent_byte-identifier_byte : (c : ℕ) → is_agent_byte c ≡ true → is_identifier_byte c ≡ true
unfolding is_identifier_byte
agent_byte-identifier_byte c h = ground arith

-- Whatever a certificate may carry as an agent's name, the event contract admits as an
-- identifier.
pub valid_agent_id-identifier : (s : Text) → valid_agent_id s ≡ true → valid_identifier s ≡ true
unfolding valid_agent_id valid_identifier
valid_agent_id-identifier [] h = h
valid_agent_id-identifier (c ∷ s) h =
    ground (arith, every_mono is_agent_byte is_identifier_byte agent_byte-identifier_byte s)

-- An identifier is never empty and never longer than 64 bytes.
pub valid_identifier_bounds :
    (s : Text) → valid_identifier s ≡ true → (0 < length s) × (length s ≤ 64)
unfolding matches valid_identifier
valid_identifier_bounds [] h = cc
valid_identifier_bounds (c ∷ s) h = ground arith
