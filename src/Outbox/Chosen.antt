-- ===== src/Outbox/Chosen.antt =====
-- What a claim of the outbox chooses and returns, row by row.
use universal_agent_memory.Prelude.{
  ℕ, ◌≡◌, refl, sym, ap, ◌∙◌, inl, inr, true, false, none, List, [], ◌∷◌, map, arith, eqb, eqb_iff,
  nat_eq, list_eq, option_eq, if◌then◌else◌, Bool-cases, Option-cases, filter, take, All, All-In,
  All-of_In, All-take, All-filter_self, In, In-of-filter,
}
use universal_agent_memory.Text.{Text}
use universal_agent_memory.Sorting.{sort, All-sort}
use universal_agent_memory.Outbox.{
  OutboxRow, ClaimedEvent, claimed_of, is_due, not_later, due_ids, is_chosen, lease_row, claim_rows,
}
use universal_agent_memory.Outbox.Steps.{is_among}

-- The primary key of the table.
abbrev pub HasDistinctIds : List OutboxRow → Type 0
HasDistinctIds [] = Unit
HasDistinctIds (r ∷ rows) = All (λ q. eqb q.event.id r.event.id ≡ false) rows × HasDistinctIds rows

pub same_row :
    (rows : List OutboxRow) (a b : OutboxRow)
    → HasDistinctIds rows
    → In a rows
    → In b rows
    → a.event.id ≡ b.event.id
    → a ≡ b
same_row [] a b d m n e = absurd m
same_row (r ∷ rows) a b d (inl p) (inl q) e = p ∙ sym q
same_row (r ∷ rows) a b d (inl p) (inr n) e =
    let apart = All-In (λ q. eqb q.event.id r.event.id ≡ false) rows b d.0 n in
    let same : r.event.id ≡ b.event.id = sym (ap (λ (x : OutboxRow). x.event.id) p) ∙ e in
    absurd (ground (arith, apart, same))
same_row (r ∷ rows) a b d (inr m) (inl q) e =
    let apart = All-In (λ q. eqb q.event.id r.event.id ≡ false) rows a d.0 m in
    let same : a.event.id ≡ r.event.id = e ∙ ap (λ (x : OutboxRow). x.event.id) q in
    absurd (ground (arith, apart, same))
same_row (r ∷ rows) a b d (inr m) (inr n) e = same_row rows a b d.1 m n e

named_row :
    {P : OutboxRow → Type 0} (rows : List OutboxRow) (i : ℕ)
    → All P rows
    → is_among (map (λ r. r.event.id) rows) i ≡ true
    → (r : OutboxRow) × P r × (r.event.id ≡ i)
named_row [] i h k = absurd (cc)
named_row (r ∷ rows) i h k = elim (Bool-cases (eqb r.event.id i)) [
  | inl e ↦ (r, h.0, (eqb_iff r.event.id i).0 e)
  | inr e ↦ named_row rows i h.1 (ground (arith, k, e))
]

-- A row that a claim chooses is due.
pub chosen-due :
    (now limit : ℕ) (rows : List OutboxRow) (r : OutboxRow)
    → HasDistinctIds rows
    → In r rows
    → is_among (due_ids now limit rows) r.event.id ≡ true
    → is_due now r ≡ true
unfolding due_ids
chosen-due now limit rows r d m k =
    let due = filter (is_due now) rows in
    let facts : All (λ q. In q rows × (is_due now q ≡ true)) due = All-of_In due (λ q n. (
      In-of-filter (is_due now) rows q n,
      All-In (λ x. is_due now x ≡ true) due q (All-filter_self (is_due now) rows) n,
    )) in
    let (q, (n, is_due_q), same) =
      named_row {P = λ q. In q rows × (is_due now q ≡ true)} (take limit (sort not_later due))
        r.event.id
        (All-take (λ q. In q rows × (is_due now q ≡ true)) limit _
          (All-sort not_later (λ q. In q rows × (is_due now q ≡ true)) due facts))
        k in
    rw (← same_row rows q r d n m same) is_due_q

module _ (ids : List ℕ) (worker : Text) (lease now : ℕ) where
  abbrev pub leased_if_chosen : OutboxRow → OutboxRow
  leased_if_chosen r = if is_among ids r.event.id then lease_row worker lease now r else r

  abbrev pub claims_of : List OutboxRow → List ClaimedEvent
  claims_of rows = map claimed_of (filter (is_chosen ids) (claim_rows ids worker lease now rows))

  pub claim_rows-map :
      (rows : List OutboxRow) → claim_rows ids worker lease now rows ≡ map leased_if_chosen rows
  unfolding claim_rows is_chosen
  claim_rows-map [] = refl
  claim_rows-map (r ∷ rows) = ap (λ rest. leased_if_chosen r ∷ rest) (claim_rows-map rows)

  claims_of-cons :
      (r : OutboxRow) (rows : List OutboxRow)
      → claims_of (r ∷ rows) ≡ (
          if is_among ids r.event.id
          then claimed_of (lease_row worker lease now r) ∷ claims_of rows
          else claims_of rows)
  unfolding claim_rows is_chosen lease_row
  claims_of-cons r rows = elim (Bool-cases (is_among ids r.event.id)) [
    | inl e ↦ rw e (rw e refl)
    | inr e ↦ rw e (rw e refl)
  ]

  pub In-claims_of :
      (r : OutboxRow) (rows : List OutboxRow)
      → In r rows
      → is_among ids r.event.id ≡ true
      → In (claimed_of (lease_row worker lease now r)) (claims_of rows)
  In-claims_of r [] m k = absurd m
  In-claims_of r (q ∷ rows) (inl e) k =
      let same : is_among ids q.event.id ≡ true =
        ap (λ (x : OutboxRow). is_among ids x.event.id) (sym e) ∙ k in
      rw (claims_of-cons q rows, same) (inl (ap (λ x. claimed_of (lease_row worker lease now x)) e))
  In-claims_of r (q ∷ rows) (inr m) k =
      let rest = In-claims_of r rows m k in
      elim (Bool-cases (is_among ids q.event.id)) [
        | inl e ↦ rw (claims_of-cons q rows, e) (inr rest)
        | inr e ↦ rw (claims_of-cons q rows, e) rest
      ]

  pub claims_of-row :
      (c : ClaimedEvent) (rows : List OutboxRow)
      → In c (claims_of rows)
      → (q : OutboxRow) × In q rows
        × (is_among ids q.event.id ≡ true)
        × (c ≡ claimed_of (lease_row worker lease now q))
  claims_of-row c [] m = absurd (unfold claim_rows in m)
  claims_of-row c (q ∷ rows) m = elim (Bool-cases (is_among ids q.event.id)) [
    | inr e ↦
        let n : In c (claims_of rows) = rw (claims_of-cons q rows, e) at m in
        let (x, i, k, p) = claims_of-row c rows n in (x, inr i, k, p)
    | inl e ↦
        let n : In c (claimed_of (lease_row worker lease now q) ∷ claims_of rows) =
          rw (claims_of-cons q rows, e) at m in
        elim n [
          | inl p ↦ (q, inl refl, e, p)
          | inr n ↦ let (x, i, k, p) = claims_of-row c rows n in (x, inr i, k, p)
        ]
  ]

pub lease_row-id :
    (worker : Text) (lease now : ℕ) (r : OutboxRow) → (lease_row worker lease now r).event ≡ r.event
unfolding lease_row
lease_row-id worker lease now r = refl

pub is_due-unpublished : (now : ℕ) (r : OutboxRow) → is_due now r ≡ true → r.published_at ≡ none
unfolding is_due
is_due-unpublished now r h = elim (Option-cases r.published_at) [
  | inl p ↦ p
  | inr (t, p) ↦ absurd (ground (arith, h, p))
]
