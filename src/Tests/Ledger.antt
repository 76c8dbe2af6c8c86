-- ===== src/Tests/Ledger.antt =====
-- Examples for the ledger.
use universal_agent_memory.Prelude.{
  ℕ, nat_eq, list_eq, pair_eq, ◌≡◌, refl, true, false, Option, none, some, List, [], ◌∷◌, ◌++◌,
  arith, All, map, if◌then◌else◌,
}
use universal_agent_memory.Text.{Text, text}
use universal_agent_memory.Dict
use universal_agent_memory.Dict.{values}
use universal_agent_memory.Domain.Errors.{ok, err, value_error, memory_revision_conflict}
use universal_agent_memory.Domain.Memory.{MemoryItem}
use universal_agent_memory.Store.{
  MemoryStore, empty, scope_idempotency_key, publish, append_audit_if_given, retain, get, prior_id,
}
use universal_agent_memory.Store.Heads.{
  is_newer_child, newer_child, descend, latest_descendant, is_recallable_head, is_child_of,
}
use universal_agent_memory.Store.Heads.Descent.{Descends, latest_descendant-Descends}
use universal_agent_memory.Domain.Kinds.{status_eq, archived, rejected}
use universal_agent_memory.Prelude.{not, ◌&&◌, ◌||◌, any, ◌==◌}
use universal_agent_memory.Store.Writes.{
  Write, resolve_checked, check_parent, check_current, check_writes, check_write, settled,
  is_same_resolution, supersede_if_current, apply_conflict_resolution,
}
use universal_agent_memory.Store.Writes.Ledger.{IsLedger}
use universal_agent_memory.Store.Writes.Supersede.{supersede_once, supersede_retires}
use universal_agent_memory.Store.Writes.Applied.{IsCurrent, last_write, or_stored}
use universal_agent_memory.Store.Writes.Resolution.{resolution_settled, resolution_complete}
use universal_agent_memory.Store.Replays.{retain_retry}
use universal_agent_memory.Store.Listing.{Filters}
use universal_agent_memory.Store.Trail.{Reach, retained, superseded, here, next, Reach-items}
use universal_agent_memory.Store.Trail.Shape.{Reach-IsLedger}
use universal_agent_memory.Tests.Samples.{sample, happening, audit, decision}

abbrev parent : MemoryItem
parent = sample 1 1 none

abbrev child : MemoryItem
child = sample 2 2 (some 1)

abbrev rival : MemoryItem
rival = sample 3 2 (some 1)

abbrev key : Option Text
key = some (text "k")

-- The ledger with the parent.
abbrev one : MemoryStore
one = record {
  items = (1, parent) ∷ [];
  idempotency = ((1, (2, text "k")), 1) ∷ [];
  conflict_reviews = [];
  audit_events = (70, audit) ∷ [];
  events = happening 50 ∷ [];
}

stores_parent : retain parent (happening 50) key (some audit) empty ≡ (ok (parent, true), one)
unfolding retain publish append_audit_if_given Dict.get Dict.put Dict.set_default
stores_parent = refl

retain_retry_example :
    retain rival (happening 51) key none (retain parent (happening 50) key (some audit) empty).1
    ≡ (ok (parent, false), (retain parent (happening 50) key (some audit) empty).1)
unfolding retain publish append_audit_if_given Dict.get Dict.put Dict.set_default
retain_retry_example =
    retain_retry parent rival (happening 50) (happening 51) (text "k") (some audit) none empty
      parent true refl refl refl

one-IsLedger : IsLedger one
one-IsLedger = record { distinct = (unfold Dict.get in refl, tt); own_key = (refl, tt) }

finds_parent : get 1 1 one ≡ some parent
unfolding get Dict.get
finds_parent = refl

child_stored : (supersede_if_current child (happening 51) 1 none none one).0 ≡ ok (child, true)
unfolding supersede_if_current check_current check_parent get Dict.get latest_descendant descend
    newer_child scope_idempotency_key prior_id
child_stored = refl

abbrev two : MemoryStore
two = (supersede_if_current child (happening 51) 1 none none one).1

supersede_once_example :
    supersede_if_current rival (happening 52) 2 none none two
    ≡ (err (memory_revision_conflict 1 2 (latest_descendant parent two).revision), two)
supersede_once_example =
    supersede_once child rival parent (happening 51) (happening 52) 1 2 none none none one
      one-IsLedger finds_parent refl (omega arith) (omega arith) refl refl child_stored

new_in_one : Dict.get child.id one.items ≡ none
unfolding Dict.get
new_in_one = refl

supersede_retires_example :
    (is_recallable_head 1 1 two ≡ false)
    × (is_recallable_head 1 2 two ≡ (
        not (child.status == archived || child.status == rejected)
        && not (any (is_child_of 1 2) (values one.items))))
supersede_retires_example =
    supersede_retires child parent (happening 51) 1 none none one finds_parent refl new_in_one
      child_stored

latest_descendant-Descends_example :
    Descends 1 (values two.items) parent (latest_descendant parent two)
    × All (λ c. is_newer_child 1 (latest_descendant parent two) c ≡ false) (values two.items)
latest_descendant-Descends_example = latest_descendant-Descends parent two

abbrev start : MemoryStore
start = (retain parent (happening 50) key (some audit) empty).1

run : Reach one two
run = next here (superseded child (happening 51) 1 none none new_in_one)

whole_run : Reach empty start
whole_run = next here (retained parent (happening 50) key (some audit) (unfold Dict.get in refl))

Reach-IsLedger_example : IsLedger start
Reach-IsLedger_example = Reach-IsLedger whole_run

Reach-items_example : Dict.get 1 two.items ≡ some parent
Reach-items_example = Reach-items 1 parent run (unfold Dict.get in refl)

-- A resolution with one write, and one whose second write has no parent.
abbrev resolving : List Write
resolving = (child, happening 51, 1) ∷ []

abbrev broken : List Write
broken = (child, happening 51, 1) ∷ (sample 4 1 none, happening 52, 1) ∷ []

refused :
    (apply_conflict_resolution decision broken none one).0
    ≡ err (value_error "conflict resolution replacement must declare supersedes_id")
unfolding apply_conflict_resolution settled check_writes check_write check_current check_parent get
    Dict.get latest_descendant descend newer_child resolve_checked
refused = refl

applied : (apply_conflict_resolution decision resolving none one).0 ≡ ok decision
unfolding apply_conflict_resolution settled check_writes check_write check_current check_parent get
    Dict.get latest_descendant descend newer_child resolve_checked
applied = refl

abbrev decided : MemoryStore
decided = (apply_conflict_resolution decision resolving none one).1

resolution_complete_example :
    All (IsCurrent decision one) resolving
    × ((id : ℕ)
        → Dict.get id decided.items ≡ or_stored (last_write id resolving) (Dict.get id one.items))
    × (Dict.get (1, 30) decided.conflict_reviews ≡ some decision)
    × (decided.events ≡ one.events ++ map (λ w. w.1) resolving)
resolution_complete_example =
    resolution_complete decision decision resolving none one (unfold Dict.get in refl) applied

resolution_settled_example : apply_conflict_resolution decision [] none decided ≡ (
  (if is_same_resolution decision decision
      then ok decision
      else err (value_error "conflict resolution is already applied and immutable")),
  decided,
)
resolution_settled_example =
    resolution_settled decision decision decision resolving [] none none one 2 applied refl refl
      refl

abbrev no_filter : Filters
no_filter = record { layers = []; status = none; label = none }
