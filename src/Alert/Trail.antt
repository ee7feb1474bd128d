-- ===== src/Alert/Trail.antt =====
-- The trail that moves leave, read back: what an alert became is what its lines say.
use seagull_backend_v.Base.{
  ℕ, ◌≡◌, ◌≢◌, refl, subst, List, [], ◌∷◌, Text, ok, err, Result-cases, inl, inr, ◌∙◌,
}
use seagull_backend_v.Alert.State.{WireState}
use seagull_backend_v.Alert.Move.{Alert, Analysis, Move, Transition, apply, next_revision}
use seagull_backend_v.Alert.Lifecycle.{IsConsistent, Advances, apply-Advances, apply-IsConsistent}

-- A move that is refused leaves the alert as it was and writes no line.
pub run : Alert → List Move → Alert × List Transition
run current [] = (current, [])
run current (move ∷ moves) = elim (apply current move) [
  | err e ↦ run current moves
  | ok (after, line) ↦ let (last, lines) = run after moves in (last, line ∷ lines)
]

-- Lines that lead from one state and revision to another, each starting where the one before
-- ended, at the next revision, about one alert and by somebody.
pub data Leads (id : Text) (last : WireState) (at_last : ℕ)
    : WireState → ℕ → List Transition → Type 0 where
  stands : (s : WireState) (r : ℕ) → last ≡ s → at_last ≡ r → Leads id last at_last s r []
  goes :
      (s : WireState) (r : ℕ) (line : Transition) (lines : List Transition)
      → line.alert_id ≡ id
      → line.from ≡ s
      → line.revision ≡ next_revision r
      → line.actor ≢ []
      → Leads id last at_last line.to line.revision lines
      → Leads id last at_last s r (line ∷ lines)

-- An alert whose state is an ending exactly when it carries a closure, and whose closure names
-- that ending, stays so under any sequence of moves.
pub run-IsConsistent :
    (current : Alert) (moves : List Move)
    → IsConsistent current
    → IsConsistent (run current moves).0
unfolding run
run-IsConsistent current [] c = c
run-IsConsistent current (move ∷ moves) c = elim (Result-cases (apply current move)) [
  | inl ((after, line), e) ↦
      rw (e, run) (run-IsConsistent after moves (apply-IsConsistent current move e c))
  | inr (x, e) ↦ rw (e, run) (run-IsConsistent current moves c)
]

goes-Advances :
    (current after : Alert) (move : Move) (line : Transition) (s : WireState) (r : ℕ)
    (lines : List Transition)
    → Advances current move after line
    → Leads after.analysis.alert_id s r after.state after.revision lines
    → Leads current.analysis.alert_id s r current.state current.revision (line ∷ lines)
goes-Advances current after move line s r lines m l =
    goes current.state current.revision line lines m.line_alert m.line_from
      (m.line_revision ∙ m.revised) m.attributed.1
      (rw (m.line_to, m.line_revision)
        (subst (λ (a : Analysis). Leads a.alert_id s r after.state after.revision lines)
          m.same_analysis l))

-- The trail that any sequence of moves leaves, the refused ones leaving nothing, leads from the
-- alert as it was to the alert as it is, each line starting where the one before ended, at the
-- next revision, about this alert and by somebody.
pub run-Leads :
    (current : Alert) (moves : List Move)
    → let (last, lines) = run current moves in
      Leads current.analysis.alert_id last.state last.revision current.state current.revision lines
unfolding run
run-Leads current [] = stands current.state current.revision refl refl
run-Leads current (move ∷ moves) = elim (Result-cases (apply current move)) [
  | inl ((after, line), e) ↦
      rw (e, run)
        (goes-Advances current after move line _ _ _ (apply-Advances current move e)
          (run-Leads after moves))
  | inr (x, e) ↦ rw (e, run) (run-Leads current moves)
]
