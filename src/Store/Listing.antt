-- ===== src/Store/Listing.antt =====
-- `list_for_workspace` of adapters/in_memory.py: filtering, order and pages.
use universal_agent_memory.Prelude.{
  ℕ, ◌+◌, ◌≡◌, sym, ◌↔◌, Bool, true, false, not, ◌&&◌, ◌||◌, Option, none, some, List, [], ◌∷◌,
  ◌++◌, arith, ltb, nat_eq, list_eq, option_eq, ◌==◌, filter, any, take, drop, In, In-filter,
  In-of-filter, All-filter_self, All-In,
}
use universal_agent_memory.Prelude.{take-drop-append, drop-drop}
use universal_agent_memory.Text.{Text}
use universal_agent_memory.Dict.{values}
use universal_agent_memory.Sorting.{sort, IsSorted, sort-IsSorted, In-sort, In-of-sort}
use universal_agent_memory.Domain.Kinds.{MemoryLayer, MemoryStatus, layer_eq, status_eq}
use universal_agent_memory.Domain.Memory.{MemoryItem}
use universal_agent_memory.Store.{MemoryStore}

-- The optional filters of a listing; the empty tuple, `None` and the empty label ask for nothing.
pub record Filters : Type 0 where
  pub layers : List MemoryLayer
  pub status : Option MemoryStatus
  pub label : Option Text

abbrev pub in_layers : List MemoryLayer → MemoryLayer → Bool
in_layers [] layer = true
in_layers (l ∷ ls) layer = any (λ k. k == layer) (l ∷ ls)

abbrev pub has_status : Option MemoryStatus → MemoryStatus → Bool
has_status none status = true
has_status (some wanted) status = status == wanted

abbrev pub has_label : Option Text → List Text → Bool
has_label none labels = true
has_label (some []) labels = true
has_label (some (c ∷ l)) labels = any (λ k. k == c ∷ l) labels

unfoldable pub is_listed : ℕ → ℕ → Filters → MemoryItem → Bool
is_listed tenant_id workspace_id f item =
    item.tenant_id == tenant_id
    && item.workspace_id == workspace_id
    && in_layers f.layers item.layer
    && has_status f.status item.status
    && has_label f.label item.labels

-- `(created_at, id)`, compared as tuples.
unfoldable pub not_later : MemoryItem → MemoryItem → Bool
not_later a b =
    ltb a.created_at b.created_at || (a.created_at == b.created_at && not (ltb b.id a.id))

-- `ordered[start : None if limit is None else start + limit]`
unfoldable pub page {ℓ} : {A : Type ℓ} → ℕ → Option ℕ → List A → List A
page start none xs = drop start xs
page start (some limit) xs = take limit (drop start xs)

-- The rows before the page is cut out.
unfoldable pub ordered : ℕ → ℕ → Filters → MemoryStore → List MemoryItem
ordered tenant_id workspace_id f s =
    sort not_later (filter (is_listed tenant_id workspace_id f) (values s.items))

-- `list_for_workspace`; a negative offset counts as 0.
unfoldable pub list_for_workspace : ℕ → ℕ → Filters → Option ℕ → ℕ → MemoryStore → List MemoryItem
unfolding ordered page
list_for_workspace tenant_id workspace_id f limit offset s =
    page offset limit (ordered tenant_id workspace_id f s)

not_later-total : (a b : MemoryItem) → not_later a b ≡ false → not_later b a ≡ true
unfolding not_later
not_later-total a b h = ground arith

not_later_trans :
    (a b c : MemoryItem) → not_later a b ≡ true → not_later b c ≡ true → not_later a c ≡ true
unfolding not_later
not_later_trans a b c h k = ground arith

-- An unlimited listing is sorted, oldest first, and an item is in it exactly when it is stored,
-- has the tenant and the workspace, and passes the filters.
pub ordered_exact :
    (t w : ℕ) (f : Filters) (s : MemoryStore) (item : MemoryItem)
    → IsSorted not_later (list_for_workspace t w f none 0 s)
      × (In item (list_for_workspace t w f none 0 s)
          ↔ (In item (values s.items) × (is_listed t w f item ≡ true)))
unfolding list_for_workspace
ordered_exact t w f s item = (
  sort-IsSorted not_later not_later-total not_later_trans
      (filter (is_listed t w f) (values s.items)),
  (
    λ m.
        let n = In-of-sort not_later item (filter (is_listed t w f) (values s.items)) m in
        (
          In-of-filter (is_listed t w f) (values s.items) item n,
          All-In (λ x. is_listed t w f x ≡ true) _ item
              (All-filter_self (is_listed t w f) (values s.items)) n,
        ),
    λ m. In-sort not_later item _ (In-filter (is_listed t w f) (values s.items) item m.0 m.1),
  ),
)

-- Two pages that follow one another are one longer page: nothing is skipped and nothing stands
-- twice at the border.
pub pages_join :
    (t w : ℕ) (f : Filters) (s : MemoryStore) (offset n m : ℕ)
    → list_for_workspace t w f (some n) offset s ++ list_for_workspace t w f (some m) (offset + n) s
      ≡ list_for_workspace t w f (some (n + m)) offset s
unfolding list_for_workspace
pages_join t w f s offset n m =
    let rows = sort not_later (filter (is_listed t w f) (values s.items)) in
    rw (sym (drop-drop offset n rows)) (take-drop-append n m (drop offset rows))
