-- ===== src/Examples/Roster.antt =====
-- The log that a gateway reads: decisions about one agent, some of them unreadable. Two values of
-- a record decode, and no other does.
use mathlib.Core.List.Perm as Exchange
use mathlib.Core.List.{Perm}
use seagull_backend_v.Base.{
  ◌≡◌, ◌≢◌, refl, true, false, Option, none, some, List, [], ◌∷◌, ◌++◌, ◌&&◌, Text, bytes, arith,
  text_eq, text_Eq, ◌==◌, if◌then◌else◌,
}
use seagull_backend_v.Base.Map.{lookup, insert}
use seagull_backend_v.Identifier.{valid_identifier}
use seagull_backend_v.Agent.State.{wire_active, from_wire, admits, State-discrete}
use seagull_backend_v.Agent.Record.{Admission}
use seagull_backend_v.Agent.Register.{tenant}
use seagull_backend_v.Agent.Roster.{Decided, read, settle, apply, refuse, refused_entry, tenant_of}
use seagull_backend_v.Agent.Gateway.{LogRecord, read_record, take_in, applying}
use seagull_backend_v.Agent.Gateway.Entries.{decision, own}
use seagull_backend_v.Agent.Gateway.Convergence.{Readable, tenant_of-applying-perm}
use seagull_backend_v.Agent.Gateway.Decisions.{HeldBefore, Before, all_readable, newest-applying}
use seagull_backend_v.Agent.Gateway.Refusals.{UpTo, refused-applying}

abbrev enrolled : Admission
enrolled = record {
  agent_id = bytes "a1";
  tenant_id = bytes "acme";
  state = wire_active;
  revision = 1;
  changed_at = none;
}

abbrev moved : Admission
moved = record enrolled { tenant_id = bytes "other"; revision = 2 }

abbrev decoded : Text → Option Admission
decoded value =
    if value == bytes "one"
    then some enrolled
    else if value == bytes "two"
    then some moved
    else none

abbrev at_one : LogRecord
at_one = record { key = bytes "a1"; value = bytes "one"; offset = 4 }

abbrev at_two : LogRecord
at_two = record { key = bytes "a1"; value = bytes "two"; offset = 7 }

abbrev broken : LogRecord
broken = record { key = bytes "a1"; value = bytes "?"; offset = 9 }

abbrev other_broken : LogRecord
other_broken = record { key = bytes "b2"; value = bytes "?"; offset = 2 }

abbrev nameless : LogRecord
nameless = record { key = []; value = bytes "one"; offset = 3 }

-- A record that cannot be decoded stops the agent it is keyed by, and no other.
stopped :
    tenant_of (applying decoded [] (at_one ∷ other_broken ∷ broken ∷ [])).0 (bytes "a1") ≡ none
unfolding applying take_in read_record apply read tenant valid_identifier from_wire admits
    State-discrete settle refuse refused_entry insert lookup text_eq tenant_of
stopped = refl

still_admitted :
    tenant_of (applying decoded [] (at_one ∷ other_broken ∷ [])).0 (bytes "a1")
    ≡ some (bytes "acme")
unfolding applying take_in read_record apply read tenant valid_identifier from_wire admits
    State-discrete settle refuse refused_entry insert lookup text_eq tenant_of
still_admitted = refl

-- A record that names no agent ends the reading.
ended : (applying decoded [] (nameless ∷ at_one ∷ [])).1 ≢ none
unfolding applying take_in read_record text_eq
ended h = cc

abbrev newest_decided : Decided
newest_decided = record { admitted = true; tenant = bytes "other"; revision = 2 }

abbrev oldest_decided : Decided
oldest_decided = record { admitted = true; tenant = bytes "acme"; revision = 1 }

two_decides : decision decoded at_two ≡ some newest_decided
unfolding decision read tenant valid_identifier from_wire admits State-discrete text_eq
two_decides = refl

one_decides : decision decoded at_one ≡ some oldest_decided
unfolding decision read tenant valid_identifier from_wire admits State-discrete text_eq
one_decides = refl

abbrev later : List LogRecord
later = at_one ∷ other_broken ∷ []

unheard : HeldBefore 2 (lookup (bytes "a1") [])
unfolding lookup
unheard = tt

broken_says_nothing : decision decoded broken ≡ none
unfolding decision text_eq
broken_says_nothing = refl

broken_is_older : Before decoded 2 (own (bytes "a1") (broken ∷ []))
unfolding own text_eq
broken_is_older = (λ next e. cc broken_says_nothing, tt)

later_is_older : Before decoded 2 (own (bytes "a1") later)
unfolding own text_eq
later_is_older = (λ next e. ground (arith, one_decides), tt)

read_to_end : (applying decoded [] ((broken ∷ []) ++ at_two ∷ later)).1 ≡ none
unfolding applying take_in read_record apply read tenant valid_identifier from_wire admits
    State-discrete settle refuse refused_entry insert lookup text_eq
read_to_end = refl

later_is_said : all_readable decoded (own (bytes "a1") later) ≡ true
unfolding all_readable own text_eq
later_is_said = rw one_decides refl

newest-applying_example :
    tenant_of (applying decoded [] ((broken ∷ []) ++ at_two ∷ later)).0 (bytes "a1")
    ≡ (if true && all_readable decoded (own (bytes "a1") later) then some (bytes "other") else none)
newest-applying_example =
    newest-applying decoded [] at_two newest_decided (broken ∷ []) later two_decides (omega arith)
      unheard broken_is_older later_is_older read_to_end

abbrev first_log : List LogRecord
first_log = at_two ∷ other_broken ∷ at_one ∷ []

abbrev second_log : List LogRecord
second_log = at_one ∷ at_two ∷ []

first_read : (applying decoded [] first_log).1 ≡ none
unfolding applying take_in read_record apply read tenant valid_identifier from_wire admits
    State-discrete settle refuse refused_entry insert lookup text_eq
first_read = refl

second_read : (applying decoded [] second_log).1 ≡ none
unfolding applying take_in read_record apply read tenant valid_identifier from_wire admits
    State-discrete settle refuse refused_entry insert lookup text_eq
second_read = refl

same_records : Perm (own (bytes "a1") first_log) (own (bytes "a1") second_log)
unfolding own text_eq
same_records = Exchange.swap at_one at_two []

first_is_said : Readable decoded (own (bytes "a1") first_log)
unfolding own text_eq
first_is_said = (λ e. cc two_decides, (λ e. cc one_decides, tt))

tenant_of-applying-perm_example :
    tenant_of (applying decoded [] first_log).0 (bytes "a1")
    ≡ tenant_of (applying decoded [] second_log).0 (bytes "a1")
tenant_of-applying-perm_example =
    tenant_of-applying-perm decoded [] first_log second_log (bytes "a1") first_read second_read
      same_records first_is_said

abbrev gone : Decided
gone = record { admitted = false; tenant = bytes "acme"; revision = 1 }

holds : lookup (bytes "a1") ((bytes "a1", gone) ∷ []) ≡ some gone
unfolding lookup text_eq
holds = refl

up_to : UpTo decoded 1 (own (bytes "a1") (at_one ∷ broken ∷ nameless ∷ []))
unfolding own text_eq
up_to = (λ next e. ground (arith, one_decides), (λ next e. cc broken_says_nothing, tt))

refused-applying_example :
    tenant_of
      (applying decoded ((bytes "a1", gone) ∷ []) (at_one ∷ broken ∷ nameless ∷ [])).0
      (bytes "a1")
    ≡ none
refused-applying_example =
    refused-applying decoded ((bytes "a1", gone) ∷ []) (bytes "a1") gone
      (at_one ∷ broken ∷ nameless ∷ []) holds refl up_to
