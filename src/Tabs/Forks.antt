-- ===== src/Tabs/Forks.antt =====
-- The id of a new fork tab is no other tab's, however tabs came and went before.
use sebenza.Base.{
  ℕ, ◌+◌, ◌^◌, ◌≤◌, ◌<◌, Text, codes, ◌≡◌, ◌≢◌, refl, sym, ap, ◌∙◌, ◌⊎◌, inl, inr, Bool, true,
  false, not, none, List, [], ◌∷◌, ◌++◌, map, arith, ◌==◌, nat_eq, text_eq, text_beq_iff, unwrap_or,
  any, find, filter, Bool-cases, ℤ, pos, i32_suc, to_decimal, to_decimal_inj,
}
use sebenza.Worktree.{kind_beq, WorktreeMeta, WorktreeTab, fork, shell, kind_eq, root_tab_id}
use sebenza.Tabs.{
  list_tabs, find_tab, next_fork_seq, int_to_decimal, ForkTabInput, build_fork_tab, AgentTabInput,
  build_agent_tab, append_tab, remove_tab, TabPatch, patch_tab, update_tab, set_active_tab,
  with_tabs, active_tab_id,
}

abbrev pub has_tab : Text → List WorktreeTab → Bool
has_tab id tabs = any (λ tab. tab.tab_id == id) tabs

abbrev counter_of : WorktreeMeta → ℤ
counter_of meta = unwrap_or meta.fork_counter (pos 0)

-- What the lifecycle service does with the tabs of a worktree.
pub data TabStep : WorktreeMeta → WorktreeMeta → Type 0 where
  -- a fork, numbered as the service numbers it, while the counter does not overflow
  fork_tab :
      (meta : WorktreeMeta) (input : ForkTabInput) (n : ℕ)
      → counter_of meta ≡ pos n
      → n + 1 < 2 ^ 31
      → input.seq ≡ next_fork_seq meta
      → TabStep meta (append_tab meta (build_fork_tab input))
  agent_tab :
      (meta : WorktreeMeta) (input : AgentTabInput)
      → TabStep meta (append_tab meta (build_agent_tab input))
  shell_tab :
      (meta : WorktreeMeta) (tab : WorktreeTab) (millis : Text)
      → tab.kind ≡ shell
      → tab.tab_id ≡ codes "shell-" ++ millis
      → TabStep meta (append_tab meta tab)
  removed : (meta : WorktreeMeta) (id : Text) → TabStep meta (remove_tab meta id)
  updated :
      (meta : WorktreeMeta) (id : Text) (patch : TabPatch) → TabStep meta (update_tab meta id patch)
  activated : (meta : WorktreeMeta) (id : Text) → TabStep meta (set_active_tab meta id)
  -- a reopened worktree: its root tab, and some of the tabs that it had
  restored :
      (meta : WorktreeMeta) (tabs : List WorktreeTab)
      → ((id : Text)
          → has_tab id tabs ≡ true
          → (id ≡ root_tab_id) ⊎ (has_tab id (list_tabs meta) ≡ true))
      → TabStep meta (with_tabs meta tabs)

-- The states that a worktree without tabs gets to.
pub data Reached : WorktreeMeta → Type 0 where
  fresh : (meta : WorktreeMeta) → meta.tabs ≡ none → meta.fork_counter ≡ none → Reached meta
  later : {before after : WorktreeMeta} → Reached before → TabStep before after → Reached after

abbrev fork_id : ℕ → Text
fork_id k = codes "fork-" ++ to_decimal k

-- The counter is a number, and no live id is that of a later fork.
record IsNumbered (meta : WorktreeMeta) : Type 0 where
  counter : ℕ
  is_counter : counter_of meta ≡ pos counter
  forks : (k : ℕ) → has_tab (fork_id k) (list_tabs meta) ≡ true → k ≤ counter

fork_id_inj : (j k : ℕ) → fork_id j ≡ fork_id k → j ≡ k
fork_id_inj j k e = to_decimal_inj j k (ground (arith, e))

has_tab-patch :
    (id other : Text) (patch : TabPatch) (tabs : List WorktreeTab)
    → has_tab id (map (patch_tab other patch) tabs) ≡ has_tab id tabs
unfolding any patch_tab
has_tab-patch id other patch [] = refl
has_tab-patch id other patch (tab ∷ tabs) = ground (arith, has_tab-patch id other patch tabs)

has_tab-filter :
    (id : Text) (p : WorktreeTab → Bool) (tabs : List WorktreeTab)
    → has_tab id (filter p tabs) ≡ true
    → has_tab id tabs ≡ true
unfolding any filter
has_tab-filter id p [] h = h
has_tab-filter id p (tab ∷ tabs) h = ground (arith, h, has_tab-filter id p tabs)

-- A tab at the end is found under its own id, and the others as before.
has_tab-append :
    (id : Text) (tabs : List WorktreeTab) (tab : WorktreeTab)
    → has_tab id (tabs ++ tab ∷ []) ≡ true
    → (has_tab id tabs ≡ true) ⊎ (tab.tab_id ≡ id)
unfolding any
has_tab-append id [] tab h = inr (ground (arith, h, text_beq_iff tab.tab_id id))
has_tab-append id (first ∷ tabs) tab h = elim (Bool-cases (first.tab_id == id)) [
  | inl same ↦ inl (ground (arith, same))
  | inr other ↦ elim (has_tab-append id tabs tab (ground (arith, h, other))) [
    | inl among ↦ inl (ground (arith, among))
    | inr last ↦ inr last
  ]
]

-- An appended tab that is no fork has an id unlike theirs.
appended-IsNumbered :
    (meta : WorktreeMeta) (tab : WorktreeTab)
    → IsNumbered meta
    → tab.kind == fork ≡ false
    → ((k : ℕ) → tab.tab_id ≢ fork_id k)
    → IsNumbered (append_tab meta tab)
unfolding append_tab list_tabs
appended-IsNumbered meta tab numbered other unlike = record {
  counter = numbered.counter;
  is_counter = rw other numbered.is_counter;
  forks = λ k h. elim (has_tab-append (fork_id k) (list_tabs meta) tab h) [
    | inl among ↦ numbered.forks k among
    | inr last ↦ absurd (unlike k last)
  ];
}

next_fork_seq-pos :
    (meta : WorktreeMeta) (n : ℕ)
    → counter_of meta ≡ pos n
    → n + 1 < 2 ^ 31
    → next_fork_seq meta ≡ pos (n + 1)
unfolding next_fork_seq i32_suc
next_fork_seq-pos meta n counted fits = ground (arith, counted, fits)

tab_id-build_fork_tab :
    (input : ForkTabInput) (n : ℕ) → input.seq ≡ pos n → (build_fork_tab input).tab_id ≡ fork_id n
unfolding build_fork_tab int_to_decimal
tab_id-build_fork_tab input n seq = rw seq refl

forked-IsNumbered :
    (meta : WorktreeMeta) (input : ForkTabInput) (n : ℕ)
    → IsNumbered meta
    → counter_of meta ≡ pos n
    → n + 1 < 2 ^ 31
    → input.seq ≡ next_fork_seq meta
    → IsNumbered (append_tab meta (build_fork_tab input))
unfolding append_tab list_tabs build_fork_tab kind_beq
forked-IsNumbered meta input n numbered counted fits seq =
    let numeral = seq ∙ next_fork_seq-pos meta n counted fits in
    let same : n ≡ numbered.counter = ground (arith, sym counted ∙ numbered.is_counter) in
    record {
      counter = n + 1;
      is_counter = numeral;
      forks = λ k h. elim (has_tab-append (fork_id k) (list_tabs meta) (build_fork_tab input) h) [
        | inl among ↦ omega (arith, numbered.forks k among, same)
        | inr last ↦ omega (
          arith,
          fork_id_inj (n + 1) k (sym (tab_id-build_fork_tab input (n + 1) numeral) ∙ last),
        )
      ];
    }

-- A change that adds no fork and keeps the counter.
kept-IsNumbered :
    (meta next : WorktreeMeta)
    → IsNumbered meta
    → counter_of next ≡ counter_of meta
    → ((k : ℕ)
        → has_tab (fork_id k) (list_tabs next) ≡ true
        → has_tab (fork_id k) (list_tabs meta) ≡ true)
    → IsNumbered next
kept-IsNumbered meta next numbered same known = record {
  counter = numbered.counter;
  is_counter = same ∙ numbered.is_counter;
  forks = λ k h. numbered.forks k (known k h);
}

removed-IsNumbered :
    (meta : WorktreeMeta) (id : Text) → IsNumbered meta → IsNumbered (remove_tab meta id)
unfolding remove_tab list_tabs
removed-IsNumbered meta id numbered =
    let keeps = λ (k : ℕ).
      has_tab-filter (fork_id k) (λ (tab : WorktreeTab). not (tab.tab_id == id)) (list_tabs meta) in
    elim (Bool-cases (active_tab_id meta == id)) [
      | inl active ↦
          kept-IsNumbered meta (remove_tab meta id) numbered (rw active refl)
            (λ k h. keeps k (rw active at h))
      | inr other ↦
          kept-IsNumbered meta (remove_tab meta id) numbered (rw other refl)
            (λ k h. keeps k (rw other at h))
    ]

step-IsNumbered : {meta next : WorktreeMeta} → IsNumbered meta → TabStep meta next → IsNumbered next
unfolding build_agent_tab kind_beq update_tab set_active_tab with_tabs list_tabs
step-IsNumbered numbered (fork_tab meta input n counted fits seq) =
    forked-IsNumbered meta input n numbered counted fits seq
step-IsNumbered numbered (agent_tab meta input) =
    appended-IsNumbered meta (build_agent_tab input) numbered refl (λ k e. ground (arith, e))
step-IsNumbered numbered (shell_tab meta tab millis kind id) =
    appended-IsNumbered meta tab numbered (rw kind refl) (λ k e. ground (arith, sym id ∙ e))
step-IsNumbered numbered (removed meta id) = removed-IsNumbered meta id numbered
step-IsNumbered numbered (updated meta id patch) =
    kept-IsNumbered meta (update_tab meta id patch) numbered refl
      (λ k h. sym (has_tab-patch (fork_id k) id patch (list_tabs meta)) ∙ h)
step-IsNumbered numbered (activated meta id) =
    kept-IsNumbered meta (set_active_tab meta id) numbered refl (λ k h. h)
step-IsNumbered numbered (restored meta tabs known) =
    kept-IsNumbered meta (with_tabs meta tabs) numbered refl (λ k h. elim (known (fork_id k) h) [
      | inl is_root ↦ absurd (ground (arith, is_root))
      | inr among ↦ among
    ])

Reached-IsNumbered : {meta : WorktreeMeta} → Reached meta → IsNumbered meta
unfolding list_tabs any
Reached-IsNumbered (fresh meta tabless counterless) = record {
  counter = 0;
  is_counter = rw counterless refl;
  forks = λ k h. ground (arith, h, tabless);
}
Reached-IsNumbered (later reached step) = step-IsNumbered (Reached-IsNumbered reached) step

find-has_tab :
    (id : Text) (tabs : List WorktreeTab)
    → has_tab id tabs ≡ false
    → find (λ tab. tab.tab_id == id) tabs ≡ none
unfolding any find
find-has_tab id [] h = refl
find-has_tab id (tab ∷ tabs) h = ground (arith, h, find-has_tab id tabs)

-- Whatever tabs a worktree was given, lost and got back, as long as its fork counter does not overflow, a
-- new fork that is numbered as the code numbers it has an id that none of the tabs has.
pub build_fork_tab-fresh :
    (meta : WorktreeMeta) (input : ForkTabInput)
    → Reached meta
    → ((n : ℕ) → unwrap_or meta.fork_counter (pos 0) ≡ pos n → n + 1 < 2 ^ 31)
    → input.seq ≡ next_fork_seq meta
    → find_tab meta (build_fork_tab input).tab_id ≡ none
unfolding find_tab list_tabs
build_fork_tab-fresh meta input reached fits seq =
    let numbered = Reached-IsNumbered reached in
    let n = numbered.counter in
    let named =
      tab_id-build_fork_tab input (n + 1)
        (seq ∙ next_fork_seq-pos meta n numbered.is_counter (fits n numbered.is_counter)) in
    elim (Bool-cases (has_tab (fork_id (n + 1)) (list_tabs meta))) [
      | inl used ↦ absurd (omega (arith, numbered.forks (n + 1) used))
      | inr free ↦
          ap (λ id. find (λ tab. tab.tab_id == id) (list_tabs meta)) named
          ∙ find-has_tab (fork_id (n + 1)) (list_tabs meta) free
    ]
