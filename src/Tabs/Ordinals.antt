-- ===== src/Tabs/Ordinals.antt =====
-- The number of an agent's new tab is the least one that none of its tabs has.
use sebenza.Base.{
  ℕ, suc, ◌-◌, ◌^◌, ◌≤◌, ◌<◌, Text, ◌≡◌, ap, ◌∙◌, Bool, true, false, Option, none, some, List, [],
  ◌∷◌, arith, nat_eq, text_eq, nat_beq_iff, filter, filter_map, contains, length, ℤ, pos, negsuc,
  i32_of, int_eq, int_beq_iff, first_free, first_free-free, first_free-least, first_free-le,
  le-first_free, first_free-cong, length-filter_map,
}
use sebenza.Worktree.{WorktreeMeta, WorktreeTab}
use sebenza.Tabs.{list_tabs, is_agent_tab_of, used_ordinals, free_ordinal, next_agent_ordinal}

i32_of_small : (n : ℕ) → n < 2 ^ 31 → i32_of n ≡ pos n
unfolding i32_of
i32_of_small n h = ground (arith, h)

abbrev natural : ℤ → Option ℕ
natural (pos n) = some n
natural (negsuc n) = none

contains_pos :
    (used : List ℤ) (n : ℕ)
    → contains used (pos n) ≡ true
    → contains (filter_map natural used) n ≡ true
unfolding contains filter_map
contains_pos [] n h = cc
contains_pos (pos k ∷ used) n h =
    ground (arith, h, contains_pos used n, int_beq_iff (pos k) (pos n), nat_beq_iff k n)
contains_pos (negsuc k ∷ used) n h =
    ground (arith, h, contains_pos used n, int_beq_iff (negsuc k) (pos n))

-- A number from 1 that is not in use, and all below it are.
pub record IsLeastFree (used : List ℤ) (ordinal : ℤ) : Type 0 where
  pub number : ℕ
  pub is_number : ordinal ≡ pos number
  pub positive : 0 < number
  pub free : contains used ordinal ≡ false
  pub least : (k : ℕ) → 0 < k → k < number → contains used (pos k) ≡ true

free_ordinal-IsLeastFree :
    (used : List ℤ) → length used < 2 ^ 31 - 2 → IsLeastFree used (free_ordinal used)
unfolding free_ordinal
free_ordinal-IsLeastFree used few =
    let taken = λ (n : ℕ). contains used (pos n) in
    let fuel = suc (length used) in
    let found = first_free taken fuel 1 in
    let bound = first_free-le taken fuel 1 in
    let same =
      first_free-cong (λ n. contains used (i32_of n)) taken fuel 1
        (λ k low high. ap (contains used) (i32_of_small k (omega (arith, high, few)))) in
    let exact = ap i32_of same ∙ i32_of_small found (omega (arith, bound, few)) in
    record {
      number = found;
      is_number = exact;
      positive = omega (arith, le-first_free taken fuel 1);
      free =
          ap (contains used) exact
          ∙ first_free-free taken (filter_map natural used) fuel 1 (contains_pos used)
              (omega (arith, length-filter_map natural used));
      least = λ k low high. first_free-least taken fuel 1 k (omega (arith, low)) high;
    }

length-filter : {A : Type 0} (p : A → Bool) (xs : List A) → length (filter p xs) ≤ length xs
unfolding filter
length-filter p [] = omega arith
length-filter p (x ∷ xs) = ground (arith, length-filter p xs)

-- The ordinal of an agent's next tab is positive, none of its tabs has it, and all smaller positive
-- ones are in use: the search for it ends. It is so with fewer than 2 ^ 31 - 2 tabs.
pub next_agent_ordinal-IsLeastFree :
    (meta : WorktreeMeta) (agent_id : Text)
    → length (list_tabs meta) < 2 ^ 31 - 2
    → IsLeastFree (used_ordinals meta agent_id) (next_agent_ordinal meta agent_id)
unfolding next_agent_ordinal used_ordinals
next_agent_ordinal-IsLeastFree meta agent_id few =
    free_ordinal-IsLeastFree (used_ordinals meta agent_id) (
      omega (
        arith,
        few,
        length-filter_map (λ (tab : WorktreeTab). tab.seq)
            (filter (is_agent_tab_of agent_id) (list_tabs meta)),
        length-filter (is_agent_tab_of agent_id) (list_tabs meta),
      ))
