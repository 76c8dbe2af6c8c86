-- ===== src/Checkpoints/Histories.antt =====
-- The checkpoint store of adapters/in_memory.py as a family of histories: a specification without
-- the layout of the store, and the proof that the store implements it.
use std.Path.{fun_ext}
use universal_agent_memory.Prelude.{
  ℕ, zero, suc, ◌≤◌, ltb, drop, length-drop, All, sym, ◌-◌, ◌≡◌, refl, ap, ◌∙◌, inl, inr, some,
  ◌&&◌, List, [], ◌∷◌, ◌++◌, arith, eqb, eqb_iff, if◌then◌else◌, length, get_last?, Bool-cases,
}
use universal_agent_memory.Domain.Errors.{Result, ok, err, stale_revision}
use universal_agent_memory.Checkpoints.{
  Checkpoint, CheckpointStore, tenant_revs, save, revision_or_zero, save_if_head, last_items,
  compact,
}
use universal_agent_memory.Checkpoints.Views.{tenant_revs-save}
use universal_agent_memory.Checkpoints.Compaction.{
  tenant_revs-compact, tenant_revs-compact_ne, removed-compact,
}

-- The calls that change the store, and what they answer.
pub data Command : Type 0 where
  saves : Checkpoint → Command
  saves_if_head : Checkpoint → ℕ → Command
  compacts : ℕ → ℕ → ℕ → Command

pub data Answer : Type 0 where
  done : Answer
  saved : Result Checkpoint → Answer
  removed : ℕ → Answer

abbrev pub execute : Command → CheckpointStore → Answer × CheckpointStore
execute (saves c) s = (done, save c s)
execute (saves_if_head c expected) s = let r = save_if_head c expected s in (saved r.0, r.1)
execute (compacts t th k) s = let r = compact t th k s in (removed r.0, r.1)

-- What the store promises: a history for each tenant and thread, which grows at its end, and of
-- which compaction keeps the newest.
abbrev pub Histories : Type 0
Histories = ℕ → ℕ → List Checkpoint

abbrev pub histories : CheckpointStore → Histories
histories s = λ t th. tenant_revs t th s

abbrev pub extend : Checkpoint → Histories → Histories
extend c h = λ t th. if eqb c.thread_id th && eqb c.tenant_id t then h t th ++ c ∷ [] else h t th

-- Those behind which fewer than `k` come.
abbrev pub newest : ℕ → List Checkpoint → List Checkpoint
newest k [] = []
newest k (x ∷ xs) = let rest = newest k xs in if ltb (length xs) k then x ∷ rest else rest

abbrev pub shorten : ℕ → ℕ → ℕ → Histories → Histories
shorten t th k h = λ t' th'. if eqb th th' && eqb t t' then newest k (h t' th') else h t' th'

abbrev pub promise : Command → Histories → Answer × Histories
promise (saves c) h = (done, extend c h)
promise (saves_if_head c expected) h =
    let actual = revision_or_zero (get_last? (h c.tenant_id c.thread_id)) in
    if eqb actual expected
    then (saved (ok c), extend c h)
    else (saved (err (stale_revision c.thread_id expected (some actual))), h)
promise (compacts t th k) h =
    (removed (length (h t th) - length (newest k (h t th))), shorten t th k h)

-- A compaction is asked to keep at least one checkpoint.
abbrev pub KeepsOne : Command → Type 0
KeepsOne (compacts t th k) = 1 ≤ k
KeepsOne _ = Unit

-- Runs of calls, with all their answers.
abbrev pub execute_all : List Command → CheckpointStore → List Answer × CheckpointStore
execute_all [] s = ([], s)
execute_all (c ∷ cs) s =
    let first = execute c s in let rest = execute_all cs first.1 in (first.0 ∷ rest.0, rest.1)

abbrev pub promise_all : List Command → Histories → List Answer × Histories
promise_all [] h = ([], h)
promise_all (c ∷ cs) h =
    let first = promise c h in let rest = promise_all cs first.1 in (first.0 ∷ rest.0, rest.1)

drop-newest : (k : ℕ) (xs : List Checkpoint) → drop (length xs - k) xs ≡ newest k xs
drop-newest k [] = let e : 0 - k ≡ 0 = omega arith in rw e refl
drop-newest k (x ∷ xs) = elim (Bool-cases (ltb (length xs) k)) [
  | inl e ↦
      let whole : suc (length xs) - k ≡ 0 = ground (arith, e) in
      let rest : length xs - k ≡ 0 = ground (arith, e) in
      let same : xs ≡ newest k xs = ap (λ n. drop n xs) (sym rest) ∙ drop-newest k xs in
      rw (whole, e) (ap (λ ys. x ∷ ys) same)
  | inr e ↦
      let less : suc (length xs) - k ≡ suc (length xs - k) = ground (arith, e) in
      rw (less, e) (drop-newest k xs)
]

last_items-newest : (k : ℕ) (xs : List Checkpoint) → 1 ≤ k → last_items k xs ≡ newest k xs
unfolding last_items
last_items-newest zero xs h = absurd (omega arith)
last_items-newest (suc k) xs h = drop-newest (suc k) xs

length-newest :
    (k : ℕ) (xs : List Checkpoint)
    → length xs - length (newest k xs) ≡ length xs - (length xs - (length xs - k))
length-newest k xs =
    let e = ap length (sym (drop-newest k xs)) ∙ length-drop (length xs - k) xs in omega (arith, e)

histories-save :
    (c : Checkpoint) (s : CheckpointStore) → histories (save c s) ≡ extend c (histories s)
histories-save c s = fun_ext (λ t. fun_ext (λ th. tenant_revs-save t th c s))

compact-shorten :
    (t th k : ℕ) (s : CheckpointStore) (t' th' : ℕ)
    → 1 ≤ k
    → tenant_revs t' th' (compact t th k s).1 ≡ shorten t th k (histories s) t' th'
compact-shorten t th k s t' th' h = elim (Bool-cases (eqb th th')) [
  | inr e ↦ rw e (tenant_revs-compact_ne t th k s t' th' (inr (λ q. absurd (ground (arith, e, q)))))
  | inl e ↦ elim (Bool-cases (eqb t t')) [
    | inr f ↦
        rw (e, f)
          (tenant_revs-compact_ne t th k s t' th' (inl (λ q. absurd (ground (arith, f, q)))))
    | inl f ↦
        let a : th ≡ th' = (eqb_iff th th').0 e in
        let b : t ≡ t' = (eqb_iff t t').0 f in rw (e, f) (same_history t th k s h b a)
  ]
]
  where
    same_history :
        (t th k : ℕ) (s : CheckpointStore) {t' th' : ℕ}
        → 1 ≤ k
        → t ≡ t'
        → th ≡ th'
        → tenant_revs t' th' (compact t th k s).1 ≡ newest k (tenant_revs t' th' s)
    same_history t th k s h b a =
        rw (← b, ← a) (tenant_revs-compact t th k s ∙ last_items-newest k (tenant_revs t th s) h)

execute-promise :
    (c : Command) (s : CheckpointStore)
    → KeepsOne c
    → ((execute c s).0, histories (execute c s).1) ≡ promise c (histories s)
execute-promise (saves c) s h = ap (λ h. (done, h)) (histories-save c s)
execute-promise (saves_if_head c expected) s h =
    elim (Bool-cases
      (eqb (revision_or_zero (get_last? (tenant_revs c.tenant_id c.thread_id s))) expected)) [
        | inl e ↦
            unfold save_if_head in
            rw (e, save_if_head) (ap (λ h. (saved (ok c), h)) (histories-save c s))
        | inr e ↦ unfold save_if_head in rw (e, save_if_head) refl
      ]
execute-promise (compacts t th k) s h =
    let went = length-newest k (tenant_revs t th s) in
    let number : (compact t th k s).0
        ≡ length (tenant_revs t th s) - length (newest k (tenant_revs t th s)) =
      omega (arith, went, removed-compact t th k s) in
    cc (number, fun_ext (λ t'. fun_ext (λ th'. compact-shorten t th k s t' th' h)))

-- The store implements its specification: every run of saves, compare-and-swap saves and
-- compactions, each of which is asked to keep at least one checkpoint, answers what the
-- specification answers, and leaves the histories that it leaves. There a compaction keeps the
-- newest checkpoints of the tenant in the thread, as many as it is asked to, and answers how many
-- of them went.
pub execute_all-promise_all :
    (cs : List Command) (s : CheckpointStore)
    → All KeepsOne cs
    → ((execute_all cs s).0, histories (execute_all cs s).1) ≡ promise_all cs (histories s)
execute_all-promise_all [] s h = refl
execute_all-promise_all (c ∷ cs) s h =
    let first = execute-promise c s h.0 in
    let rest = execute_all-promise_all cs (execute c s).1 h.1 in
    ap (λ p. ((execute c s).0 ∷ p.0, p.1)) rest
    ∙ ap (λ q. (q.0 ∷ (promise_all cs q.1).0, (promise_all cs q.1).1)) first
