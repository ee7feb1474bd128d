-- ===== src/Rollout/Names.antt =====
-- internal/agentupdate/rollout.go: the names of a rollout and of its states, and `AcceptChange`.
use seagull_backend_v.Base.{
  ℕ, suc, ◌≡◌, ◌≢◌, refl, ap, ◌∙◌, inl, inr, Bool-cases, Bool, true, not, ◌&&◌, ◌||◌, Option, none,
  some, List, [], ◌∷◌, arith, Text, text_Eq, text_eq, text_eq_iff, nat_eq, bytes, ◌==◌,
  if◌then◌else◌, leb, length, contains, Result, ok, err, ◌>>=◌, ◌>>◌, refuse_if,
}
use seagull_backend_v.Identifier.{is_digit, valid_identifier}
use seagull_backend_v.Rollout.Waves.{Error, malformed, rollout_unknown}
use seagull_backend_v.Rollout.Change.{
  State, unspecified, active, paused, aborted, superseded, Change, Action, attributable,
}

unfoldable pub state_name : State → Text
state_name active = bytes "active"
state_name paused = bytes "paused"
state_name aborted = bytes "aborted"
state_name superseded = bytes "superseded"
state_name unspecified = bytes "unspecified"

-- The loop of `ParseState`.
unfoldable pub parse_state_from : List State → Text → Option State
unfolding state_name
parse_state_from [] name = none
parse_state_from (s ∷ ss) name =
    let rest = parse_state_from ss name in if state_name s == name then some s else rest

unfoldable pub parse_state : Text → Option State
unfolding parse_state_from
parse_state name = parse_state_from (active ∷ paused ∷ aborted ∷ superseded ∷ []) name

abbrev is_drawn : ℕ → Bool
is_drawn c = is_digit c || (leb b'a' c && leb c b'f')

-- The loop of `ValidRolloutID`, which holds a dash at four places.
unfoldable pub drawn_from : ℕ → Text → Bool
drawn_from i [] = true
drawn_from i (c ∷ s) =
    let rest = drawn_from (suc i) s in
    (if contains (8 ∷ 13 ∷ 18 ∷ 23 ∷ []) i then c == b'-' else is_drawn c) && rest

unfoldable pub valid_rollout_id : Text → Bool
unfolding drawn_from
valid_rollout_id id = length id == 36 && drawn_from 0 id

-- `action` is `none` where it is unspecified or not declared.
pub record AskedChange : Type 0 where
  pub tenant_id : Text
  pub rollout_id : Text
  pub action : Option Action
  pub note : Text

abbrev named_action : Option Action → Result Error Action
named_action none = err malformed
named_action (some a) = ok a

unfoldable pub accept_change : AskedChange → Text → ℕ → Result Error Change
unfolding attributable valid_rollout_id
accept_change request actor now = do
  attributable actor request.note
  refuse_if (not (valid_identifier request.tenant_id)) malformed
  refuse_if (not (valid_rollout_id request.rollout_id)) rollout_unknown
  action ← named_action request.action
  ok (record {
    tenant_id = request.tenant_id;
    rollout_id = request.rollout_id;
    action = action;
    actor = actor;
    now = now;
    note = request.note;
  })

-- Every state of a rollout that has a name of its own is read back from it.
pub parse_state-state_name : (s : State) → s ≢ unspecified → parse_state (state_name s) ≡ some s
unfolding parse_state state_name text_eq
parse_state-state_name unspecified h = absurd (h refl)
parse_state-state_name active h = refl
parse_state-state_name paused h = refl
parse_state-state_name aborted h = refl
parse_state-state_name superseded h = refl

parse_state_from-named :
    (ss : List State) (name : Text) (s : State)
    → parse_state_from ss name ≡ some s
    → state_name s ≡ name
unfolding parse_state_from
parse_state_from-named [] name s h = cc
parse_state_from-named (t ∷ ss) name s h = elim (Bool-cases (state_name t == name)) [
  | inl e ↦ ap state_name (ground arith) ∙ (text_eq_iff (state_name t) name).0 e
  | inr e ↦ parse_state_from-named ss name s (ground arith)
]

-- Nothing but the name of a rollout's state is read as that state.
pub state_name-parse_state :
    (name : Text) (s : State) → parse_state name ≡ some s → state_name s ≡ name
unfolding parse_state
state_name-parse_state name s h =
    parse_state_from-named (active ∷ paused ∷ aborted ∷ superseded ∷ []) name s h
