-- ===== src/Examples/Detection.antt =====
-- A rule on logins: a user and a port, decided of two events that differ in their host.
use seagull_backend_v.Base.{
  ◌↔◌, In, ℕ, ◌≡◌, refl, sym, ap, ◌∙◌, true, false, ◌&&◌, none, some, List, [], ◌∷◌, Text, text_eq,
  text_Eq, bytes, if◌then◌else◌, inl, inr, arith, nat_eq, ltb, nat_beq, is_some, contains,
}
use seagull_backend_v.Analysis.Stages.{has}
use seagull_backend_v.Detection.Value.{
  Numbers, Value, text, number, equals, above, below, Comparison,
}
use seagull_backend_v.Detection.Node.{
  Evidence, Node, conjunction, negation, comparison, Nodes, done, term, Event, holds,
}
use seagull_backend_v.Detection.Meaning.{means, holds-means}
use seagull_backend_v.Detection.Sufficient.{Agrees}
use seagull_backend_v.Detection.Identity.{SentEvent, identity_text, identity_text_injective}
use seagull_backend_v.Detection.Decide.{
  Record, Staged, Program, satisfied, decide, decide-means, decide_alike, has-satisfied,
}
use seagull_backend_v.Detection.Contradiction.{narrowed, directly}
use seagull_backend_v.Detection.Refused.{narrowed-means}

-- Whole numbers; from 100 on they are not read as a float64.

instance abbrev naturals : Numbers ℕ
naturals = record {
  same = nat_beq;
  float_of = λ n. if ltb n 100 then some n else none;
  infinity = 100;
  finite = λ a f e. ground arith;
  same_comm = λ a b e. ground arith;
  same_trans = λ a b c e f. ground arith;
  same_float = λ a b e. ground arith;
}

unfoldable as_is : Text → Value ℕ → Text
as_is field (text t) = t
as_is field v = []

abbrev is_user : Comparison ℕ
is_user = record { field = bytes "user"; operator = equals; literals = text (bytes "bo") ∷ [] }

abbrev above_port : ℕ → Comparison ℕ
above_port n = record { field = bytes "port"; operator = above; literals = number n ∷ [] }

abbrev below_port : ℕ → Comparison ℕ
below_port n = record { field = bytes "port"; operator = below; literals = number n ∷ [] }

-- `user equals bo` and not `port above 50`.
abbrev root : Node ℕ
root = conjunction (term (comparison is_user) (term (negation (comparison (above_port 50))) done))

unfoldable event_of : Text → Event ℕ
event_of host field =
    if text_eq field (bytes "user")
    then some (text (bytes "bo"))
    else if text_eq field (bytes "port")
    then some (number 22)
    else if text_eq field (bytes "host")
    then some (text host)
    else none

holds-means_example :
    (holds as_is root (event_of (bytes "h1")) none false).0 ≡ means root (event_of (bytes "h1"))
holds-means_example = holds-means as_is root (event_of (bytes "h1")) none false

abbrev on_host : Text → Record ℕ
on_host host = record { event_class = 3; fields = event_of host }

abbrev program : Program ℕ
program = record { class_of = 3; root = root; stages = [] }

decide-means_example :
    is_some (decide as_is program (on_host (bytes "h1")))
    ≡ (nat_beq 3 3 && means root (event_of (bytes "h1")))
decide-means_example = decide-means as_is program (on_host (bytes "h1")) refl

abbrev seen : List Evidence
seen =
    record {
      field = bytes "user";
      operator = equals;
      negated = false;
      held = bytes "bo";
      absent = false;
    }
    ∷ record { field = bytes "port"; operator = above; negated = true; held = []; absent = false }
    ∷ []

matched : decide as_is program (on_host (bytes "h1")) ≡ some seen
unfolding decide as_is event_of text_eq
matched = refl

agreed : Agrees (event_of (bytes "h1")) (event_of (bytes "h2")) seen
unfolding event_of text_eq
agreed e (inl h) =
    ap (λ (x : Evidence). event_of (bytes "h1") x.field) h
    ∙ sym (ap (λ (x : Evidence). event_of (bytes "h2") x.field) h)
agreed e (inr (inl h)) =
    ap (λ (x : Evidence). event_of (bytes "h1") x.field) h
    ∙ sym (ap (λ (x : Evidence). event_of (bytes "h2") x.field) h)
agreed e (inr (inr m)) = absurd m

decide_alike_example : is_some (decide as_is program (on_host (bytes "h2"))) ≡ true
decide_alike_example =
    decide_alike as_is program (on_host (bytes "h1")) (on_host (bytes "h2")) seen refl matched refl
      agreed

abbrev login : Staged ℕ
login = record { name = bytes "login"; root = root }

abbrev high_port : Staged ℕ
high_port = record { name = bytes "high"; root = comparison (above_port 50) }

abbrev staged : Program ℕ
staged = record { class_of = 3; root = root; stages = high_port ∷ login ∷ [] }

has-satisfied_example :
    has (satisfied as_is staged (on_host (bytes "h1"))).0 1 ≡ means root (event_of (bytes "h1"))
has-satisfied_example =
    has-satisfied as_is staged (on_host (bytes "h1")) 1 login refl (omega arith) refl

abbrev impossible : Nodes ℕ
impossible = term (comparison (above_port 50)) (term (comparison (below_port 40)) done)

refused : narrowed (directly impossible) ≡ true
unfolding narrowed directly contains text_eq
refused = refl

narrowed-means_example : means (conjunction impossible) (event_of (bytes "h1")) ≡ false
narrowed-means_example = narrowed-means impossible (event_of (bytes "h1")) refused

abbrev sent : Text → Text → SentEvent
sent agent event = record { agent = agent; event = event }

-- A story across two agents has one name, whichever of its events is named first.
either_order :
    identity_text
      (bytes "r")
      1
      (bytes "t")
      (sent (bytes "a") (bytes "1") ∷ sent (bytes "b") (bytes "2") ∷ [])
    ≡ identity_text
        (bytes "r")
        1
        (bytes "t")
        (sent (bytes "b") (bytes "2") ∷ sent (bytes "a") (bytes "1") ∷ [])
unfolding identity_text
either_order = refl

identity_text_injective_example :
    (bytes "r" ≡ bytes "r")
    × (◌≡◌ {A = ℕ} 1 1)
    × (bytes "t" ≡ bytes "t")
    × ((s : SentEvent)
        → In s (sent (bytes "a") (bytes "1") ∷ sent (bytes "b") (bytes "2") ∷ [])
          ↔ In s (sent (bytes "b") (bytes "2") ∷ sent (bytes "a") (bytes "1") ∷ []))
identity_text_injective_example =
    identity_text_injective (bytes "r") (bytes "r") 1 1 (bytes "t") (bytes "t")
      (sent (bytes "a") (bytes "1") ∷ sent (bytes "b") (bytes "2") ∷ [])
      (sent (bytes "b") (bytes "2") ∷ sent (bytes "a") (bytes "1") ∷ []) either_order
