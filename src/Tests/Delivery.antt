-- ===== src/Tests/Delivery.antt =====
-- Examples for idempotent consumers.
use universal_agent_memory.Prelude.{
  ℕ, if◌then◌else◌, ◌==◌, ◌≡◌, ◌≢◌, refl, inl, Option, none, some, List, [], ◌∷◌, arith, nat_eq,
  list_eq, pair_eq, list_beq_iff,
}
use mathlib.Core.Bool.{false≢true}
use universal_agent_memory.Text.{Text, text, is_blank, is_space}
use universal_agent_memory.Dict
use universal_agent_memory.Domain.Errors.{ok}
use universal_agent_memory.Domain.Records.{IntegrationEvent}
use universal_agent_memory.Consumer.{
  acquired, busy, ProcessedRow, Key, Table, claim_event_processing, update_leased, is_leased_to,
  complete_row, IdempotentEventConsumer, consumer_init, returned, raised, handle, handle_claimed,
  complete_event_processing,
}
use universal_agent_memory.Consumer.Leases.{claim_exclusive}
use universal_agent_memory.Consumer.Once.{
  IsProcessed, here, next, claimed, Reach-IsProcessed, handle_once, handled, seen_before,
}
use universal_agent_memory.Consumer.Holds.{OtherSteps, start, step, claims, ends}
use universal_agent_memory.Consumer.Retry.{handle_retry}
use universal_agent_memory.Tests.Samples.{happening}

abbrev indexer : IdempotentEventConsumer
indexer = record { consumer = text "index"; worker_id = text "w1"; lease_seconds = 60 }

abbrev second : IdempotentEventConsumer
second = record { consumer = text "index"; worker_id = text "w2"; lease_seconds = 60 }

accepts_indexer : consumer_init indexer ≡ ok indexer
unfolding consumer_init is_blank is_space
accepts_indexer = refl

abbrev key : Key
key = (51, text "index")

-- The world is the list of the handled events; event 52 fails.
abbrev index : IntegrationEvent → List ℕ → Option Text × List ℕ
index event world = if event.id == 52 then (some (text "down"), world) else (none, event.id ∷ world)

gets_it : (claim_event_processing key (text "w1") 60 100 []).0 ≡ acquired
unfolding claim_event_processing Dict.get
gets_it = refl

claim_exclusive_example :
    claim_event_processing key
      (text "w2")
      60
      130
      (claim_event_processing key (text "w1") 60 100 []).1
    ≡ (busy, (claim_event_processing key (text "w1") 60 100 []).1)
claim_exclusive_example =
    claim_exclusive key (text "w1") (text "w2") 60 60 100 130 [] (omega arith) gets_it

other_name : text "w2" ≢ text "w1"
other_name p = false≢true ((list_beq_iff (text "w2") (text "w1")).1 p)

abbrev done_row : ProcessedRow
done_row = record {
  lease_owner = none;
  lease_until = none;
  attempts = 1;
  processed_at = some 105;
  last_error = none;
}

abbrev done : Table
done = (key, done_row) ∷ []

abbrev done_later : Table
done_later = (claim_event_processing key (text "w2") 60 500 done).1

Reach-IsProcessed_example : IsProcessed key done_row done_later
Reach-IsProcessed_example =
    Reach-IsProcessed key done_row (next here (claimed key (text "w2") 60 500))
      (unfold Dict.get in refl, refl)

handles : handle index indexer (happening 51) 100 105 [] [] ≡ (returned handled, done, 51 ∷ [])
unfolding handle claim_event_processing Dict.get Dict.put update_leased is_leased_to complete_row
handles = refl

answers : (handle index indexer (happening 51) 100 105 [] []).0 ≡ returned handled
unfolding handle claim_event_processing Dict.get Dict.put update_leased is_leased_to complete_row
answers = refl

handle_once_example :
    handle index second
      (happening 51)
      500
      505
      (handle index indexer (happening 51) 100 105 [] []).1
      (51 ∷ [])
    ≡ (returned seen_before, (handle index indexer (happening 51) 100 105 [] []).1, 51 ∷ [])
handle_once_example =
    handle_once index indexer second (happening 51) (happening 51) 100 105 500 505 []
      (handle index indexer (happening 51) 100 105 [] []).1 [] (51 ∷ []) refl refl answers here

claims_failing : (claim_event_processing (52, text "index") (text "w1") 60 100 []).0 ≡ acquired
unfolding claim_event_processing Dict.get
claims_failing = refl

abbrev failing : Key
failing = (52, text "index")

abbrev taken : Table
taken = (claim_event_processing failing (text "w1") 60 100 []).1

-- In between another worker asks for the event and tries to complete it.
abbrev meanwhile : Table
meanwhile =
    (complete_event_processing failing (text "w2") 120
      (claim_event_processing failing (text "w2") 60 110 taken).1).1

others : OtherSteps failing (text "w1") 160 taken meanwhile
others =
    step (step start (claims failing (text "w2") 60 110 (inl (omega arith))))
      (ends failing (text "w2") 120 (inl other_name))

handle_retry_example :
    ((handle_claimed index indexer (happening 52) 130 acquired meanwhile []).0
      ≡ raised (text "down"))
    × ((claim_event_processing failing
          (text "w2")
          60
          131
          (handle_claimed index indexer (happening 52) 130 acquired meanwhile []).1).0
        ≡ acquired)
handle_retry_example =
    handle_retry index indexer (happening 52) (text "down") (text "w2") 100 130 60 131 [] []
      claims_failing others refl
