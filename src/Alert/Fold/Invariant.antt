-- ===== src/Alert/Fold/Invariant.antt =====
-- What the tables of internal/postgres/fold.go keep: an alert counts the detections folded into
-- it, is named by one of them, and every occurrence belongs to an alert.
use seagull_backend_v.Base.{
  ℕ, suc, ◌≡◌, refl, true, false, some, List, [], ◌∷◌, Text, text_Eq, text_eq_iff, nat_eq, ◌==◌,
  if◌then◌else◌, All, Option-cases, Bool-cases, inl, inr, arith,
}
use seagull_backend_v.Alert.Move.{Alert}
use seagull_backend_v.Alert.Fold.{
  Candidate, Occurrence, Store, Outcome, raised, folded, repeated, cooled_down, tenant_of,
  already_folded, open_alert, fold_into, insert_occurrence, has_alert, insert_alert, raise,
  fold_open, absorbing, held_back, record_one, record_all,
}

-- How many detections are recorded against an alert.
pub count_of : Text → List Occurrence → ℕ
count_of id [] = 0
count_of id (o ∷ os) = if o.alert_id == id then suc (count_of id os) else count_of id os

abbrev pub Counted : List Occurrence → Alert → Type 0
Counted os a = a.occurrences ≡ count_of a.analysis.alert_id os

abbrev pub Named : List Occurrence → Alert → Type 0
Named os a = already_folded a.analysis.alert_id os ≡ true

abbrev pub Owned : List Alert → Occurrence → Type 0
Owned more o = has_alert o.alert_id more ≡ true

pub record WellKept (s : Store) : Type 0 where
  pub counted : All (Counted s.occurrences) s.alerts
  pub named : All (Named s.occurrences) s.alerts
  pub owned : All (Owned s.alerts) s.occurrences

-- What `Consider` makes of a detection: an alert named by it that counts one.
pub record IsFresh (c : Candidate) : Type 0 where
  pub named_by : c.alert.analysis.alert_id ≡ c.detection_id
  pub counts_one : c.alert.occurrences ≡ 1

abbrev row : Text → Candidate → Occurrence
row id c = record { alert_id = id; detection_id = c.detection_id; event_time = c.happened }

module _ (c : Candidate) (id : Text) where
  has_alert-fold_into :
      (j : Text) (alerts : List Alert)
      → has_alert j (fold_into id c.happened alerts) ≡ has_alert j alerts
  unfolding has_alert fold_into
  has_alert-fold_into j [] = refl
  has_alert-fold_into j (a ∷ more) = ground (arith, has_alert-fold_into j more)

  Counted-fold_into :
      (os : List Occurrence) (alerts : List Alert)
      → All (Counted os) alerts
      → All (Counted (row id c ∷ os)) (fold_into id c.happened alerts)
  unfolding fold_into count_of
  Counted-fold_into os [] h = tt
  Counted-fold_into os (a ∷ more) h = (
    ground (arith, text_eq_iff a.analysis.alert_id id, text_eq_iff id a.analysis.alert_id),
    Counted-fold_into os more h.1,
  )

  Named-fold_into :
      (os : List Occurrence) (alerts : List Alert)
      → All (Named os) alerts
      → All (Named (row id c ∷ os)) (fold_into id c.happened alerts)
  unfolding fold_into already_folded
  Named-fold_into os [] h = tt
  Named-fold_into os (a ∷ more) h = (ground arith, Named-fold_into os more h.1)

  Owned-fold_into :
      (alerts : List Alert) (os : List Occurrence)
      → All (Owned alerts) os
      → All (Owned (fold_into id c.happened alerts)) os
  Owned-fold_into alerts [] h = tt
  Owned-fold_into alerts (o ∷ os) h =
      (ground (arith, has_alert-fold_into o.alert_id alerts), Owned-fold_into alerts os h.1)

  Named-cons :
      (os : List Occurrence) (alerts : List Alert)
      → All (Named os) alerts
      → All (Named (row id c ∷ os)) alerts
  unfolding already_folded
  Named-cons os [] h = tt
  Named-cons os (a ∷ more) h = (ground arith, Named-cons os more h.1)

  Owned-cons :
      (b : Alert) (alerts : List Alert) (os : List Occurrence)
      → All (Owned alerts) os
      → All (Owned (b ∷ alerts)) os
  unfolding has_alert
  Owned-cons b alerts [] h = tt
  Owned-cons b alerts (o ∷ os) h = (ground arith, Owned-cons b alerts os h.1)

  Counted-cons :
      (os : List Occurrence) (alerts : List Alert)
      → has_alert id alerts ≡ false
      → All (Counted os) alerts
      → All (Counted (row id c ∷ os)) alerts
  unfolding count_of has_alert
  Counted-cons os [] n h = tt
  Counted-cons os (a ∷ more) n h = (
    ground (arith, text_eq_iff a.analysis.alert_id id, text_eq_iff id a.analysis.alert_id),
    Counted-cons os more (ground arith) h.1,
  )

open_alert-has :
    (tenant key : Text) (alerts : List Alert) {a : Alert}
    → open_alert tenant key alerts ≡ some a
    → has_alert a.analysis.alert_id alerts ≡ true
unfolding open_alert has_alert
open_alert-has tenant key [] e = cc
open_alert-has tenant key (b ∷ more) {a} e = elim (Option-cases (open_alert tenant key more)) [
  | inl n ↦ ground (arith, text_eq_iff b.analysis.alert_id a.analysis.alert_id)
  | inr (x, p) ↦
      ground (
        arith,
        text_eq_iff b.analysis.alert_id a.analysis.alert_id,
        open_alert-has tenant key more p,
      )
]

absorbing-has :
    (s : Store) (c : Candidate) {a : Alert}
    → absorbing s c ≡ some a
    → has_alert a.analysis.alert_id s.alerts ≡ true
unfolding absorbing
absorbing-has s c {a} e = elim (Option-cases (open_alert (tenant_of c) c.key s.alerts)) [
  | inl n ↦ ground arith
  | inr (x, p) ↦ ground (arith, open_alert-has (tenant_of c) c.key s.alerts p)
]

-- No alert is named by a detection that was not folded yet, and none is recorded against it.
unfolded-has :
    (d : Text) (os : List Occurrence) (alerts : List Alert)
    → already_folded d os ≡ false
    → All (Named os) alerts
    → has_alert d alerts ≡ false
unfolding has_alert
unfolded-has d os [] n h = refl
unfolded-has d os (a ∷ more) n h =
    ground (arith, text_eq_iff a.analysis.alert_id d, unfolded-has d os more n h.1)

unowned-count :
    (d : Text) (alerts : List Alert) (os : List Occurrence)
    → has_alert d alerts ≡ false
    → All (Owned alerts) os
    → count_of d os ≡ 0
unfolding count_of
unowned-count d alerts [] n h = refl
unowned-count d alerts (o ∷ os) n h =
    ground (arith, text_eq_iff o.alert_id d, unowned-count d alerts os n h.1)

fold_open-WellKept :
    (s : Store) (c : Candidate) (a : Alert)
    → already_folded c.detection_id s.occurrences ≡ false
    → has_alert a.analysis.alert_id s.alerts ≡ true
    → WellKept s
    → WellKept (fold_open s c a)
unfolding fold_open insert_occurrence
fold_open-WellKept s c a n h w = rw n (record {
  counted = Counted-fold_into c a.analysis.alert_id s.occurrences s.alerts w.counted;
  named = Named-fold_into c a.analysis.alert_id s.occurrences s.alerts w.named;
  owned = (
    rw (has_alert-fold_into c a.analysis.alert_id a.analysis.alert_id s.alerts) h,
    Owned-fold_into c a.analysis.alert_id s.alerts s.occurrences w.owned,
  );
})

raise-WellKept :
    (s : Store) (c : Candidate)
    → already_folded c.detection_id s.occurrences ≡ false
    → IsFresh c
    → WellKept s
    → WellKept (raise s c)
unfolding raise insert_occurrence insert_alert
raise-WellKept s c n f w =
    let absent : has_alert c.alert.analysis.alert_id s.alerts ≡ false =
      rw f.named_by (unfolded-has c.detection_id s.occurrences s.alerts n w.named) in
    let id = c.alert.analysis.alert_id in
    rw (n, absent)
      (record {
        counted = (
          unfold count_of in
              ground (
                arith,
                f.counts_one,
                text_eq_iff id id,
                unowned-count id s.alerts s.occurrences absent w.owned,
              ),
          Counted-cons c id s.occurrences s.alerts absent w.counted,
        );
        named = (
          unfold already_folded in ground (arith, text_eq_iff c.detection_id id),
          Named-cons c id s.occurrences s.alerts w.named,
        );
        owned = (
          unfold has_alert in ground (arith, text_eq_iff id id),
          Owned-cons c id (record c.alert { correlation_key = c.key }) s.alerts s.occurrences
              w.owned,
        );
      })

-- What recording one detection may come to.
pub record_one_cases {ℓ} :
    (P : Store × Outcome → Type ℓ) (s : Store) (c : Candidate)
    → (already_folded c.detection_id s.occurrences ≡ true → P (s, repeated))
    → (already_folded c.detection_id s.occurrences ≡ false
        → (a : Alert) → absorbing s c ≡ some a
        → P (fold_open s c a, folded))
    → P (s, cooled_down)
    → (already_folded c.detection_id s.occurrences ≡ false → P (raise s c, raised))
    → P (record_one s c)
unfolding record_one
record_one_cases P s c again into cooled fresh =
    elim (Bool-cases (already_folded c.detection_id s.occurrences)) [
      | inl n ↦ rw n (again n)
      | inr n ↦ rw n (elim (Option-cases (absorbing s c)) [
        | inr (a, e) ↦ rw (e, record_one) (into n a e)
        | inl e ↦
            rw (e, record_one)
              (elim (Bool-cases (held_back s c)) [ inl h ↦ rw h cooled | inr h ↦ rw h (fresh n) ])
      ])
    ]

-- Recording a detection keeps the tables: an alert still counts what was folded into it.
pub record_one-WellKept :
    (s : Store) (c : Candidate) → IsFresh c → WellKept s → WellKept (record_one s c).0
record_one-WellKept s c f w =
    record_one_cases (λ r. WellKept r.0) s c (λ n. w)
      (λ n a e. fold_open-WellKept s c a n (absorbing-has s c e) w) w
      (λ n. raise-WellKept s c n f w)

-- Recording a batch of fresh candidates, each an alert named by its detection that counts one,
-- keeps the tables: every alert counts exactly the detections recorded against it and is named
-- by a recorded one, and every occurrence belongs to an alert that is there.
pub record_all-WellKept :
    (s : Store) (cs : List Candidate) → All IsFresh cs → WellKept s → WellKept (record_all s cs).0
unfolding record_all
record_all-WellKept s [] f w = w
record_all-WellKept s (c ∷ cs) f w =
    record_all-WellKept (record_one s c).0 cs f.1 (record_one-WellKept s c f.0 w)
