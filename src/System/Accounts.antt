-- ===== src/System/Accounts.antt =====
-- nla-system-database.mjs: the sums of the accounting of model calls.
use next_level_agent.Base.{
  ℕ, ◌+◌, Bool, ◌&&◌, List, [], ◌∷◌, select, length, ◌≡◌, refl, ap, ◌∙◌, subst, Dict, ◌==◌,
  Bool-cases, inl, inr, arith,
}
use next_level_agent.Base.Result.{ok, >>=-eq-ok, ok_injective}
use next_level_agent.Base.Order.{insert_sorted, sort_by}
use next_level_agent.System.Names.{Host}
use next_level_agent.System.Tables.{Database, Counts, UsageRow}
use next_level_agent.System.Database.{brought_up}
use next_level_agent.System.Usage.{
  Filters, Group, usage_filters, matches, add_counts, grouped, group_all, same_role, larger_first,
  summarize_system_model_usage,
}
use next_level_agent.System.Writes.{reading-eq-ok}

swap : (a b c : ℕ) → a + (b + c) ≡ b + (a + c)
swap a b c = omega arith

add_counts-swap : (a b c : Counts) → add_counts a (add_counts b c) ≡ add_counts b (add_counts a c)
unfolding add_counts
add_counts-swap a b c = λ i. record {
  input = swap a.input b.input c.input i;
  output = swap a.output b.output c.output i;
  reasoning = swap a.reasoning b.reasoning c.reasoning i;
  cache_read = swap a.cache_read b.cache_read c.cache_read i;
  cache_write = swap a.cache_write b.cache_write c.cache_write i;
  total = swap a.total b.total c.total i;
  cost = swap a.cost b.cost c.cost i;
}

rotate : (a b c : ℕ) → (a + b) + c ≡ b + (a + c)
rotate a b c = omega arith

add_counts-rotate : (a b c : Counts) → add_counts (add_counts a b) c ≡ add_counts b (add_counts a c)
unfolding add_counts
add_counts-rotate a b c = λ i. record {
  input = rotate a.input b.input c.input i;
  output = rotate a.output b.output c.output i;
  reasoning = rotate a.reasoning b.reasoning c.reasoning i;
  cache_read = rotate a.cache_read b.cache_read c.cache_read i;
  cache_write = rotate a.cache_write b.cache_write c.cache_write i;
  total = rotate a.total b.total c.total i;
  cost = rotate a.cost b.cost c.cost i;
}

abbrev no_counts : Counts
no_counts = record {
  input = 0;
  output = 0;
  reasoning = 0;
  cache_read = 0;
  cache_write = 0;
  total = 0;
  cost = 0;
}

-- The sums over all rows, and over all groups.
unfoldable pub row_sums : Dict UsageRow → Counts
unfolding add_counts
row_sums [] = no_counts
row_sums ((message, row) ∷ rest) = add_counts row.counts (row_sums rest)

unfoldable pub group_sums : List Group → Counts
unfolding add_counts
group_sums [] = no_counts
group_sums (g ∷ gs) = add_counts g.sums (group_sums gs)

unfoldable pub requests_of : List Group → ℕ
requests_of [] = 0
requests_of (g ∷ gs) = g.requests + requests_of gs

abbrev joins : Group → UsageRow → Bool
joins g row = same_role g.role row.role && g.binding == row.binding

group_sums-grouped :
    (row : UsageRow) (gs : List Group)
    → group_sums (grouped row gs) ≡ add_counts row.counts (group_sums gs)
unfolding group_sums grouped
group_sums-grouped row [] = refl
group_sums-grouped row (g ∷ gs) = elim (Bool-cases (joins g row)) [
  | inl e ↦ rw e (add_counts-rotate g.sums row.counts (group_sums gs))
  | inr e ↦ rw e (
      ap (add_counts g.sums) (group_sums-grouped row gs)
      ∙ add_counts-swap g.sums row.counts (group_sums gs))
]

requests_of-grouped :
    (row : UsageRow) (gs : List Group) → requests_of (grouped row gs) ≡ 1 + requests_of gs
unfolding requests_of grouped
requests_of-grouped row [] = refl
requests_of-grouped row (g ∷ gs) = elim (Bool-cases (joins g row)) [
  | inl e ↦ rw e (omega arith)
  | inr e ↦ rw e (omega (arith, requests_of-grouped row gs))
]

group_all-sums :
    (rows : Dict UsageRow)
    → (group_sums (group_all rows) ≡ row_sums rows) × (requests_of (group_all rows) ≡ length rows)
unfolding group_all row_sums
group_all-sums [] = (unfold group_sums in refl, unfold requests_of in refl)
group_all-sums ((message, row) ∷ rest) =
    let (sums, requests) = group_all-sums rest in
    (
      group_sums-grouped row (group_all rest) ∙ ap (add_counts row.counts) sums,
      requests_of-grouped row (group_all rest) ∙ omega arith,
    )

module _ (le : Group → Group → Bool) where
  insert_sorted-sums :
      (g : Group) (gs : List Group)
      → (group_sums (insert_sorted le g gs) ≡ group_sums (g ∷ gs))
        × (requests_of (insert_sorted le g gs) ≡ requests_of (g ∷ gs))
  unfolding insert_sorted group_sums requests_of
  insert_sorted-sums g [] = (refl, refl)
  insert_sorted-sums g (h ∷ hs) =
      let (sums, requests) = insert_sorted-sums g hs in
      elim (Bool-cases (le g h)) [
        | inl e ↦ rw e (refl, refl)
        | inr e ↦ rw e (
          ap (add_counts h.sums) sums ∙ add_counts-swap h.sums g.sums (group_sums hs),
          omega arith,
        )
      ]

  sort_by-sums :
      (gs : List Group)
      → (group_sums (sort_by le gs) ≡ group_sums gs)
        × (requests_of (sort_by le gs) ≡ requests_of gs)
  unfolding sort_by group_sums requests_of
  sort_by-sums [] = (refl, refl)
  sort_by-sums (g ∷ gs) =
      let (sums, requests) = sort_by-sums gs in
      let (s, r) = insert_sorted-sums g (sort_by le gs) in
      (s ∙ ap (add_counts g.sums) sums, r ∙ ap (λ n. g.requests + n) requests)

-- A summary accounts for every row that matches the filters once: its requests are as many as the rows,
-- and each of its sums, over all groups, is that over the rows.
pub summarize_system_model_usage_sums :
    (host : Host) (db : Database) (asked : Filters) {groups : List Group}
    → (summarize_system_model_usage host db asked).1 ≡ ok groups
    → (filters : Filters) × (usage_filters host asked ≡ ok filters)
      × (requests_of groups ≡ length (select (matches filters) db.usage))
      × (group_sums groups ≡ row_sums (select (matches filters) db.usage))
unfolding summarize_system_model_usage brought_up
summarize_system_model_usage_sums host db asked {groups} h =
    let (filters, good, r) = >>=-eq-ok (usage_filters host asked) _ (reading-eq-ok db _ h) in
    let rows : Dict UsageRow = select (matches filters) db.usage in
    let (s, n) = sort_by-sums larger_first (group_all rows) in
    let (sums, requests) = group_all-sums rows in
    (
      filters,
      good,
      subst (λ gs. requests_of gs ≡ length rows) (ok_injective r) (n ∙ requests),
      subst (λ gs. group_sums gs ≡ row_sums rows) (ok_injective r) (s ∙ sums),
    )
