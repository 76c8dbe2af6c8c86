-- ===== src/Consumer/Holds.antt =====
-- What the statements of other workers leave to the holder of an event, in adapters/postgres.py.
use universal_agent_memory.Prelude.{
  ℕ, ◌≤◌, ◌≢◌, ◌⊎◌, inl, inr, Bool-cases, Option-cases, pair_beq, pair_beq_iff, arith, ◌≡◌, ap, ◌∙◌,
  none, some, nat_eq, list_eq, option_eq, pair_eq,
}
use universal_agent_memory.Text.{Text}
use universal_agent_memory.Dict
use universal_agent_memory.Dict.{get-put, get-put_self}
use universal_agent_memory.Consumer.{
  ProcessedRow, Key, Table, claim_existing, claim_event_processing, is_leased_to, update_leased,
  release_processed, release_event_processing, next_lease, complete_row, complete_event_processing,
}
use universal_agent_memory.Consumer.Leases.{
  claim-old, claim-new, claim_existing-busy, update_leased-other,
}

-- One statement of a worker of some consumer, while `worker` holds `key` until `until`: no claim of
-- the key comes after that, and `worker` itself does not end or release it.
pub data OtherStep (key : Key) (worker : Text) (until : ℕ) (s : Table) : Table → Type 0 where
  claims :
      (k : Key) (rival : Text) (lease now : ℕ)
      → (now ≤ until) ⊎ (k ≢ key)
      → OtherStep key worker until s (claim_event_processing k rival lease now s).1
  ends :
      (k : Key) (rival : Text) (now : ℕ)
      → (rival ≢ worker) ⊎ (k ≢ key)
      → OtherStep key worker until s (complete_event_processing k rival now s).1
  releases :
      (k : Key) (rival error : Text)
      → (rival ≢ worker) ⊎ (k ≢ key)
      → OtherStep key worker until s (release_event_processing k rival error s).1

pub data OtherSteps (key : Key) (worker : Text) (until : ℕ) (s : Table) : Table → Type 0 where
  start : OtherSteps key worker until s s
  step :
      {t u : Table}
      → OtherSteps key worker until s t
      → OtherStep key worker until t u
      → OtherSteps key worker until s u

-- The row of a claim that lasts.
abbrev pub IsHeld : Key → Text → ℕ → Table → Type 0
IsHeld key worker until table =
    (row : ProcessedRow) × (Dict.get key table ≡ some row)
    × (row.lease_owner ≡ some worker)
    × (row.lease_until ≡ some until)
    × (row.processed_at ≡ none)

get-put_ne :
    (k key : Key) (row : ProcessedRow) (table : Table)
    → k ≢ key
    → Dict.get key (Dict.put k row table) ≡ Dict.get key table
get-put_ne k key row table ne = elim (Bool-cases (pair_beq k key)) [
  | inl e ↦ absurd (ne ((pair_beq_iff k key).0 e))
  | inr e ↦ get-put k key row table ∙ rw e
]

claim_ne :
    (k key : Key) (rival : Text) (lease now : ℕ) (table : Table)
    → k ≢ key
    → Dict.get key (claim_event_processing k rival lease now table).1 ≡ Dict.get key table
claim_ne k key rival lease now table ne = elim (Option-cases (Dict.get k table)) [
  | inl p ↦
      ap (λ r. Dict.get key r.1) (claim-new k rival lease now table p) ∙ get-put_ne k key _ table ne
  | inr (r, p) ↦ ap (λ x. Dict.get key x.1) (claim-old k rival lease now table r p) ∙ existing r
]
  where
    existing :
        (r : ProcessedRow)
        → Dict.get key (claim_existing k rival lease now r table).1 ≡ Dict.get key table
    existing r =
        let elsewhere = get-put_ne k key (next_lease rival lease now r) table ne in
        unfold claim_existing in ground (arith, elsewhere)

update_leased_ne :
    (k key : Key) (rival : Text) (change : ProcessedRow → ProcessedRow) (table : Table)
    → k ≢ key
    → Dict.get key (update_leased k rival change table).1 ≡ Dict.get key table
unfolding update_leased
update_leased_ne k key rival change table ne = elim (Option-cases (Dict.get k table)) [
  | inl p ↦ rw (p, update_leased)
  | inr (r, p) ↦ elim (Bool-cases (is_leased_to rival r)) [
    | inl e ↦ rw (p, update_leased, e) (get-put_ne k key (change r) table ne)
    | inr e ↦ rw (p, update_leased, e)
  ]
]

module _ (key : Key) (worker : Text) (until : ℕ) where
  IsHeld-of_get :
      (s t : Table)
      → Dict.get key t ≡ Dict.get key s
      → IsHeld key worker until s
      → IsHeld key worker until t
  IsHeld-of_get s t e (row, found, owner, lasts, open_row) =
      (row, e ∙ found, owner, lasts, open_row)

  update_leased-IsHeld :
      (k : Key) (rival : Text) (change : ProcessedRow → ProcessedRow) (table : Table)
      → (rival ≢ worker) ⊎ (k ≢ key)
      → IsHeld key worker until table
      → IsHeld key worker until (update_leased k rival change table).1
  update_leased-IsHeld k rival change table (inr ne) w =
      IsHeld-of_get table _ (update_leased_ne k key rival change table ne) w
  update_leased-IsHeld k rival change table (inl ne) w = elim (Bool-cases (pair_beq k key)) [
    | inr e ↦
        IsHeld-of_get table _
          (update_leased_ne k key rival change table
            (λ q. absurd (cc (e, (pair_beq_iff k key).1 q))))
          w
    | inl e ↦
        let same : k ≡ key = (pair_beq_iff k key).0 e in
        let unchanged = update_leased-other key rival worker change table w.0 w.1 w.2 ne in
        IsHeld-of_get table _
          (ap (λ i. Dict.get key (update_leased i rival change table).1) same
            ∙ ap (λ r. Dict.get key r.1) unchanged)
          w
  ]

  OtherStep-IsHeld :
      {s t : Table}
      → OtherStep key worker until s t
      → IsHeld key worker until s
      → IsHeld key worker until t
  unfolding complete_event_processing release_event_processing
  OtherStep-IsHeld {s} (claims k rival lease now (inr ne)) w =
      IsHeld-of_get s _ (claim_ne k key rival lease now s ne) w
  OtherStep-IsHeld {s} (claims k rival lease now (inl h)) w = elim (Bool-cases (pair_beq k key)) [
    | inr e ↦
        IsHeld-of_get s _
          (claim_ne k key rival lease now s (λ q. absurd (cc (e, (pair_beq_iff k key).1 q)))) w
    | inl e ↦
        let same : k ≡ key = (pair_beq_iff k key).0 e in
        let (row, found, _, lasts, open_row) = w in
        let busy_now =
          claim-old key rival lease now s row found
          ∙ claim_existing-busy key rival lease now row s until lasts open_row h in
        IsHeld-of_get s _
          (ap (λ i. Dict.get key (claim_event_processing i rival lease now s).1) same
            ∙ ap (λ r. Dict.get key r.1) busy_now)
          w
  ]
  OtherStep-IsHeld {s} (ends k rival now other) w =
      update_leased-IsHeld k rival (complete_row now) s other w
  OtherStep-IsHeld {s} (releases k rival error other) w =
      update_leased-IsHeld k rival (release_processed error) s other w

  pub OtherSteps-IsHeld :
      {s t : Table}
      → OtherSteps key worker until s t
      → IsHeld key worker until s
      → IsHeld key worker until t
  OtherSteps-IsHeld start w = w
  OtherSteps-IsHeld (step before s) w = OtherStep-IsHeld s (OtherSteps-IsHeld before w)
