-- ===== src/Outbox/Settling.antt =====
-- The settlements of a polling cycle, row by row.
use universal_agent_memory.Prelude.{
  ℕ, ◌≡◌, refl, sym, ap, ◌∙◌, inl, inr, true, false, Option, none, some, List, [], ◌∷◌, map, arith,
  eqb, eqb_iff, nat_eq, list_eq, list_beq, list_beq_refl, option_eq, if◌then◌else◌, Bool-cases,
  Option-cases, take, All, All-of_In, In,
}
use universal_agent_memory.Text.{Text}
use universal_agent_memory.Domain.Records.{IntegrationEvent}
use universal_agent_memory.Outbox.{
  OutboxRow, ClaimedEvent, OutboxRelay, claimed_of, is_held, update_held, publish_row, release_row,
  mark_outbox_published, release_outbox, retry_delay, settle, settle_all,
}

pub map-ext :
    {A B : Type 0} (f g : A → B) (xs : List A)
    → ((x : A) → In x xs → f x ≡ g x)
    → map f xs ≡ map g xs
map-ext f g [] h = refl
map-ext f g (x ∷ xs) h =
    let first = h x (inl refl) in let rest = map-ext f g xs (λ y m. h y (inr m)) in cc (first, rest)

pub map-map :
    {A B C : Type 0} (g : B → C) (f : A → B) (xs : List A)
    → map g (map f xs) ≡ map (λ x. g (f x)) xs
map-map g f [] = refl
map-map g f (x ∷ xs) = ap (λ ys. g (f x) ∷ ys) (map-map g f xs)

module _ (self : OutboxRelay) (send : IntegrationEvent → Option Text)
    (clock : ClaimedEvent → ℕ) where
  -- One settlement, on one row.
  abbrev pub settle_row : ClaimedEvent → OutboxRow → OutboxRow
  settle_row c r =
      if is_held c.event.id self.worker_id r
      then elim (send c.event) [
        | none ↦ publish_row (clock c) r
        | some error ↦
            release_row (take 2000 error) self.max_attempts (retry_delay self c.attempts) (clock c)
              r
      ]
      else r

  update_held-map :
      (id : ℕ) (change : OutboxRow → OutboxRow) (rows : List OutboxRow)
      → update_held id self.worker_id change rows
        ≡ map (λ r. if is_held id self.worker_id r then change r else r) rows
  unfolding update_held
  update_held-map id change [] = refl
  update_held-map id change (r ∷ rows) =
      ap (λ rest. (if is_held id self.worker_id r then change r else r) ∷ rest)
        (update_held-map id change rows)

  settle-rows :
      (c : ClaimedEvent) (rows : List OutboxRow)
      → (settle self send clock c rows).2 ≡ map (settle_row c) rows
  unfolding settle
  settle-rows c rows = elim (Option-cases (send c.event)) [
    | inl e ↦
        rw (e, settle)
          (unfold mark_outbox_published in
            update_held-map c.event.id (publish_row (clock c)) rows
            ∙ map-ext _ (settle_row c) rows (λ r m. rw e refl))
    | inr (x, e) ↦
        rw (e, settle)
          (unfold release_outbox in
            update_held-map c.event.id
              (release_row (take 2000 x) self.max_attempts (retry_delay self c.attempts) (clock c))
              rows
            ∙ map-ext _ (settle_row c) rows (λ r m. rw e refl))
  ]

  abbrev pub settle_row_all : List ClaimedEvent → OutboxRow → OutboxRow
  settle_row_all [] r = r
  settle_row_all (c ∷ cs) r = settle_row_all cs (settle_row c r)

  pub settle_all-rows :
      (claimed : List ClaimedEvent) (p f : ℕ) (rows : List OutboxRow)
      → (settle_all self send clock claimed p f rows).1 ≡ map (settle_row_all claimed) rows
  unfolding settle_all
  settle_all-rows [] p f rows = sym (map_self rows)
    where
      map_self : (xs : List OutboxRow) → map (λ r. r) xs ≡ xs
      map_self [] = refl
      map_self (x ∷ xs) = ap (λ ys. x ∷ ys) (map_self xs)
  settle_all-rows (c ∷ cs) p f rows =
      settle_all-rows cs _ _ (settle self send clock c rows).2
      ∙ ap (map (settle_row_all cs)) (settle-rows c rows)
      ∙ map-map (settle_row_all cs) (settle_row c) rows

  -- A row that none of the settlements holds.
  pub settle_row_all-unheld :
      (claimed : List ClaimedEvent) (r : OutboxRow)
      → All (λ c. is_held c.event.id self.worker_id r ≡ false) claimed
      → settle_row_all claimed r ≡ r
  settle_row_all-unheld [] r h = refl
  settle_row_all-unheld (c ∷ cs) r h = rw h.0 (settle_row_all-unheld cs r h.1)

  pub held_self :
      (r : OutboxRow)
      → r.lease_owner ≡ some self.worker_id
      → r.published_at ≡ none
      → is_held r.event.id self.worker_id r ≡ true
  unfolding is_held
  held_self r o p =
      let own : list_beq self.worker_id self.worker_id ≡ true = list_beq_refl self.worker_id in
      ground (arith, o, p, own, (eqb_iff r.event.id r.event.id).1 refl)

  settled_free :
      (r : OutboxRow) (d : ClaimedEvent)
      → r.lease_owner ≡ some self.worker_id
      → r.published_at ≡ none
      → is_held d.event.id self.worker_id (settle_row (claimed_of r) r) ≡ false
  settled_free r d o p = elim (Option-cases (send r.event)) [
    | inl e ↦ rw (held_self r o p, e) (unfold is_held publish_row in ground arith)
    | inr (x, e) ↦ rw (held_self r o p, e) (unfold is_held release_row in ground arith)
  ]

  -- A row that one of them holds, and each other one with its identity is the same.
  pub settle_row_all-held :
      (claimed : List ClaimedEvent) (r : OutboxRow)
      → r.lease_owner ≡ some self.worker_id
      → r.published_at ≡ none
      → In (claimed_of r) claimed
      → ((c : ClaimedEvent) → In c claimed → c.event.id ≡ r.event.id → c ≡ claimed_of r)
      → settle_row_all claimed r ≡ settle_row (claimed_of r) r
  settle_row_all-held [] r o p m u = absurd m
  settle_row_all-held (c ∷ cs) r o p m u = elim (Bool-cases (eqb r.event.id c.event.id)) [
    | inl e ↦
        let same : c ≡ claimed_of r = u c (inl refl) (sym ((eqb_iff r.event.id c.event.id).0 e)) in
        ap (λ x. settle_row_all cs (settle_row x r)) same
        ∙ settle_row_all-unheld cs (settle_row (claimed_of r) r)
            (All-of_In cs (λ d n. settled_free r d o p))
    | inr e ↦
        let skips : is_held c.event.id self.worker_id r ≡ false =
          unfold is_held in ground (arith, e) in
        rw skips (
          settle_row_all-held cs r o p
            (elim m [
              | inl q ↦ absurd (ground (arith, e, ap (λ (x : ClaimedEvent). x.event.id) q))
              | inr n ↦ n
            ])
            (λ d n q. u d (inr n) q))
  ]
