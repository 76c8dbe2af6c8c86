-- ===== src/Tests/Gateway.antt =====
-- Examples for proposals and the write path of memories.
use universal_agent_memory.Prelude.{
  ℕ, ◌≡◌, refl, true, false, none, some, [], ◌∷◌, arith, pos, nat_eq, list_eq, pair_eq,
}
use universal_agent_memory.Text.{Text, text, is_blank, is_space, strip, lstrip, rstrip}
use universal_agent_memory.Dict
use universal_agent_memory.Domain.Errors.{Result, ok, err}
use universal_agent_memory.Domain.Json.{str, merge}
use universal_agent_memory.Domain.Kinds.{semantic, workspace, active}
use universal_agent_memory.Domain.Memory
use universal_agent_memory.Domain.Records.{event_post_init, last_segment}
use universal_agent_memory.Store
use universal_agent_memory.Store.{
  MemoryStore, empty, publish, append_audit_if_given, scope_idempotency_key, prior_id, store_item,
}
use universal_agent_memory.Proposals.{
  MemoryProposal, preference, opened, accepted, rejected, proposal_status_eq, ProposalLedger,
  get_proposal, accept_proposal_with_memory, commit_accept, reviewed_proposal, reject_after,
}
use universal_agent_memory.Proposals.Review.{accept, accept_once, reject_race}
use universal_agent_memory.Privacy.{
  PrivacyGuard, redact_text, scan, all_findings, findings_of, select, not_after, decide, redact,
  replace_all, replace_span, marker, guard_metadata, count_kinds, json_texts, json_counts, text_leb,
}
use universal_agent_memory.Privacy
use universal_agent_memory.Sorting.{sort, insert}
use universal_agent_memory.Privacy.Redaction.{pieces}
use universal_agent_memory.Retention.{
  RetainCommand, RetainResult, RetentionService, Fresh, retain, prepare, item_of_command,
  event_of_item, retain_result,
}
use universal_agent_memory.Retention.Private.{retain-IsRedacted}
use universal_agent_memory.Tests.Samples.{sample, happening, origin}
use universal_agent_memory.Tests.Ingest.{word, no_digit}

abbrev id_text : ℕ → Text
id_text id = id ∷ []

abbrev wish : MemoryProposal
wish = record {
  tenant_id = 1;
  workspace_id = 2;
  namespace = text "default";
  requester = text "agent";
  target = preference;
  proposal = text "tea";
  evidence = [];
  id = 40;
  agent_id = none;
  thread_id = none;
  confidence = pos 900000;
  importance = pos 500000;
  status = opened;
  metadata = [];
  created_at = 10;
  reviewed_at = none;
  reviewer = none;
  review_reason = [];
}

abbrev wishes : ProposalLedger
wishes = record { proposals = (40, wish) ∷ []; proposal_idempotency = []; memory = empty }

accepts_wish :
    (accept id_text wish
      (sample 1 1 none)
      (happening 10)
      (text "op")
      []
      (text "k")
      none
      20
      wishes).0
    ≡ ok (
      reviewed_proposal wish accepted
          (text "op")
          []
          (Dict.put (text "accepted_memory_id") (str (id_text 1)) [])
          20,
      sample 1 1 none,
      true,
    )
unfolding accept_proposal_with_memory get_proposal Dict.get commit_accept
accepts_wish = refl

accept_once_example :
    let after =
      (accept id_text wish
        (sample 1 1 none)
        (happening 10)
        (text "op")
        []
        (text "k")
        none
        20
        wishes).1 in
    (accept id_text wish
      (sample 2 1 none)
      (happening 11)
      (text "op")
      []
      (text "other")
      none
      30
      after).1
    ≡ after
accept_once_example =
    accept_once id_text wish (sample 1 1 none) (sample 2 1 none) (happening 10) (happening 11)
      (text "op") (text "op") [] [] (text "k") (text "other") none none 20 30 wishes (refl, tt)
      accepts_wish

reject_race_example :
    let after =
      (accept id_text wish
        (sample 1 1 none)
        (happening 10)
        (text "op")
        []
        (text "k")
        none
        20
        wishes).1 in
    let last = (reject_after id_text wish (text "other") [] none 30 after).1 in
    (get_proposal 1 40 last ≡ some (reviewed_proposal wish rejected (text "other") [] [] 30))
    × (Dict.get 1 last.memory.items ≡ some (sample 1 1 none))
reject_race_example =
    reject_race id_text wish (sample 1 1 none) (happening 10) (text "op") (text "other") [] []
      (text "k") none none 20 30 wishes (refl, tt) refl accepts_wish

abbrev gateway : RetentionService
gateway = record {
  privacy = record { enabled = true; action = redact_text };
  digit = no_digit;
  detectors = word ∷ [];
  text_of_id = id_text;
}

abbrev wanted : RetainCommand
wanted = record {
  tenant_id = 1;
  workspace_id = 2;
  layer = semantic;
  scope = workspace;
  kind = text "fact";
  text = text "tea and milk";
  provenance = origin;
  agent_id = none;
  thread_id = none;
  labels = [];
  importance = pos 500000;
  confidence = pos 700000;
  metadata = [];
  status = active;
  idempotency_key = none;
}

abbrev fresh : Fresh
fresh = record { item_id = 1; event_id = 10; now = 20 }

-- What the service answers.
answer : Result RetainResult → RetainResult
answer (ok r) = r
answer (err e) = record { item = sample 1 1 none; created = false; queued_event_ids = [] }

abbrev answered : RetainResult
answered = answer (retain gateway wanted none fresh empty).0

retains : ((retain gateway wanted none fresh empty).0 ≡ ok answered) × (answered.created ≡ true)
unfolding answer retain prepare append_audit_if_given publish Privacy.apply decide scan all_findings
    findings_of select sort insert not_after redact replace_all replace_span marker guard_metadata
    count_kinds json_texts json_counts text_leb Dict.get Dict.put merge item_of_command
    event_of_item Memory.post_init is_blank strip lstrip rstrip is_space event_post_init
    last_segment Store.retain Store.retain_after Store.append scope_idempotency_key prior_id
    store_item retain_result
retains = (refl, refl)

retain-IsRedacted_example :
    (Dict.get 1 (retain gateway wanted none fresh empty).1.items ≡ some answered.item)
    × (answered.item.text
        ≡ pieces 0 (scan no_digit (word ∷ []) (text "tea and milk")) (text "tea and milk"))
retain-IsRedacted_example =
    retain-IsRedacted gateway wanted none fresh empty {result = answered} refl refl
      (((omega arith, omega arith), tt), tt) retains.0 retains.1
