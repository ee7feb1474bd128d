-- ===== src/Alert/Fold/Replay.antt =====
-- What recording a batch again decides (internal/postgres/fold.go, `Record`).
use seagull_backend_v.Base.{
  ◌≡◌, ◌≢◌, refl, true, List, [], ◌∷◌, Text, text_Eq, text_eq_iff, nat_eq, All, Bool-cases, inl,
  inr, arith, map,
}
use seagull_backend_v.Alert.Fold.Invariant.{record_one_cases}
use seagull_backend_v.Alert.Fold.{
  Candidate, Occurrence, Store, repeated, cooled_down, already_folded, insert_occurrence, raise,
  fold_open, record_one, record_all,
}

abbrev pub Recorded : Store → Candidate → Type 0
Recorded s c = already_folded c.detection_id s.occurrences ≡ true

-- What is recorded stays recorded.
insert_occurrence-keeps :
    (d id : Text) (c : Candidate) (os : List Occurrence)
    → already_folded d os ≡ true
    → already_folded d (insert_occurrence id c os) ≡ true
unfolding insert_occurrence already_folded
insert_occurrence-keeps d id c os h = ground arith

insert_occurrence_self :
    (id : Text) (c : Candidate) (os : List Occurrence)
    → already_folded c.detection_id (insert_occurrence id c os) ≡ true
unfolding insert_occurrence
insert_occurrence_self id c os = elim (Bool-cases (already_folded c.detection_id os)) [
  | inl h ↦ rw h h
  | inr h ↦
      rw h (unfold already_folded in ground (arith, text_eq_iff c.detection_id c.detection_id))
]

record_one-keeps : (s : Store) (c d : Candidate) → Recorded s d → Recorded (record_one s c).0 d
unfolding raise fold_open
record_one-keeps s c d h =
    record_one_cases (λ r. Recorded r.0 d) s c (λ n. h)
      (λ n a e. insert_occurrence-keeps d.detection_id a.analysis.alert_id c s.occurrences h) h
      (λ n. insert_occurrence-keeps d.detection_id c.alert.analysis.alert_id c s.occurrences h)

record_all-keeps :
    (s : Store) (cs : List Candidate) (d : Candidate)
    → Recorded s d
    → Recorded (record_all s cs).0 d
unfolding record_all
record_all-keeps s [] d h = h
record_all-keeps s (c ∷ cs) d h =
    record_all-keeps (record_one s c).0 cs d (record_one-keeps s c d h)

-- Whatever a detection came to, other than being held back, it is recorded.
record_one-Recorded :
    (s : Store) (c : Candidate) → (record_one s c).1 ≢ cooled_down → Recorded (record_one s c).0 c
unfolding raise fold_open
record_one-Recorded s c =
    record_one_cases (λ r. r.1 ≢ cooled_down → Recorded r.0 c) s c (λ n h. n)
      (λ n a e h. insert_occurrence_self a.analysis.alert_id c s.occurrences) (λ h. absurd (h refl))
      (λ n h. insert_occurrence_self c.alert.analysis.alert_id c s.occurrences)

-- A detection that is recorded decides nothing again, whatever was recorded since.
record_one_again : (s : Store) (c : Candidate) → Recorded s c → record_one s c ≡ (s, repeated)
unfolding record_one
record_one_again s c h = rw h

record_all_again :
    (s : Store) (cs : List Candidate)
    → All (Recorded s) cs
    → record_all s cs ≡ (s, map (λ c. repeated) cs)
unfolding record_all
record_all_again s [] h = refl
record_all_again s (c ∷ cs) h = rw (record_one_again s c h.0, record_all_again s cs h.1)

record_all-Recorded :
    (s : Store) (cs : List Candidate)
    → All (λ o. o ≢ cooled_down) (record_all s cs).1
    → All (Recorded (record_all s cs).0) cs
unfolding record_all
record_all-Recorded s [] h = tt
record_all-Recorded s (c ∷ cs) h =
    let t = (record_one s c).0 in
    (record_all-keeps t cs c (record_one-Recorded s c h.0), record_all-Recorded t cs h.1)

-- A batch of which no detection was held back by a cooldown may be recorded again, whole: every
-- detection of it is answered `repeated`, and nothing changes.
pub record_all-record_all :
    (s : Store) (cs : List Candidate)
    → All (λ o. o ≢ cooled_down) (record_all s cs).1
    → record_all (record_all s cs).0 cs ≡ ((record_all s cs).0, map (λ c. repeated) cs)
record_all-record_all s cs h = record_all_again (record_all s cs).0 cs (record_all-Recorded s cs h)
