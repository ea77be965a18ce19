-- ===== src/Oneshot/Grace.antt =====
-- The time that an idle run is given: the passes of the watcher over all worktrees, seen from one branch.
use sebenza.Base.{
  ℕ, ◌-◌, Text, ◌≡◌, ◌⊎◌, refl, ◌∙◌, inl, inr, Bool, true, false, not, Option, none, some, List, [],
  ◌∷◌, ◌==◌, ◌&&◌, ◌||◌, arith, nat_eq, text_eq, text_beq_iff, leb, lookup, insert, remove,
  unwrap_or, is_some, is_some_and, if◌then◌else◌, Bool-cases, lookup-insert, lookup-remove,
}
use sebenza.Worktree.{WorktreeMeta}
use sebenza.Runtime.{
  AgentLifecycle, closed, starting, running, idle, awaiting_permission, stopped, error,
  ProjectRuntime,
}
use sebenza.Oneshot.{
  auto_close, idle_grace_ms, WatchState, WatchStates, state_of, begin_watch, end_watch, is_armed,
  fire_reason, decide, fire, wait, needs_grace, is_terminal_lifecycle,
}

-- What the watcher does with the timers: a pass over a worktree, with the metadata, the lifecycle of the agent,
-- whether there is a pull request, and the time; and the end of a run that it held as in flight.
pub data WatchStep : Type 0 where
  passed : Option WorktreeMeta → Text → AgentLifecycle → Bool → ℕ → WatchStep
  ended : (first again : Option WorktreeMeta) → Text → ProjectRuntime → WatchStep

-- The timers after such steps, the last one first.
unfoldable pub watch_after : List WatchStep → WatchStates
watch_after [] = []
watch_after (passed meta branch lifecycle has_pr now ∷ earlier) =
    (begin_watch meta branch lifecycle has_pr now (watch_after earlier)).1
watch_after (ended first again branch rt ∷ earlier) =
    (end_watch first again branch (watch_after earlier) rt).1

unfoldable pub has_settled : AgentLifecycle → Bool
has_settled stopped = true
has_settled error = true
has_settled closed = false
has_settled starting = false
has_settled running = false
has_settled idle = false
has_settled awaiting_permission = false

unfoldable pub is_quiet : AgentLifecycle → Bool
is_quiet idle = true
is_quiet closed = true
is_quiet stopped = false
is_quiet error = false
is_quiet starting = false
is_quiet running = false
is_quiet awaiting_permission = false

-- The metadata is there and says that the run is armed.
unfoldable pub says_armed : Option WorktreeMeta → Bool
says_armed meta = is_some_and meta (λ m. is_some m.oneshot)

-- The time of the first pass of the series of armed and quiet ones that leads up to now, if the last pass
-- over the branch was one.
unfoldable pub quiet_from : Text → List WatchStep → Option ℕ
quiet_from branch [] = none
quiet_from branch (passed meta other lifecycle has_pr now ∷ earlier) =
    let before = quiet_from branch earlier in
    if not (other == branch)
    then before
    else if says_armed meta && is_quiet lifecycle
    then some (unwrap_or before now)
    else none
quiet_from branch (ended first again other rt ∷ earlier) =
    let before = quiet_from branch earlier in if not (other == branch) then before else none

-- The agent has settled: it stopped or failed, or it is quiet and was so for the time of grace.
unfoldable pub is_over : AgentLifecycle → Option ℕ → ℕ → Bool
is_over lifecycle since now =
    has_settled lifecycle || (is_quiet lifecycle && leb 15000 (now - unwrap_or since now))

-- The run of a branch was found to be over at an armed pass, and is not ended or disarmed since.
unfoldable pub is_ending : Text → List WatchStep → Bool
is_ending branch [] = false
is_ending branch (passed meta other lifecycle has_pr now ∷ earlier) =
    let before = is_ending branch earlier in
    if not (other == branch)
    then before
    else says_armed meta && (before || is_over lifecycle (quiet_from branch earlier) now)
is_ending branch (ended first again other rt ∷ earlier) =
    let before = is_ending branch earlier in if not (other == branch) then before else false

-- The state of a branch agrees with what the steps say of it.
record Agrees (state : WatchState) (ending : Bool) (since : Option ℕ) : Type 0 where
  flying : state.in_flight ≡ ending
  timer : ending ≡ false → state.idle_since_ms ≡ since

abbrev no_state : WatchState
no_state = record { idle_since_ms = none; in_flight = false }

state_of-insert :
    (branch other : Text) (state : WatchState) (states : WatchStates)
    → state_of branch (insert other state states)
      ≡ (if other == branch then state else state_of branch states)
unfolding state_of
state_of-insert branch other state states = ground (arith, lookup-insert other branch state states)

state_of-remove :
    (branch other : Text) (states : WatchStates)
    → state_of branch (remove other states)
      ≡ (if other == branch then no_state else state_of branch states)
unfolding state_of
state_of-remove branch other states = ground (arith, lookup-remove other branch states)

is_armed-says_armed : (meta : Option WorktreeMeta) → is_armed meta ≡ says_armed meta
unfolding is_armed says_armed
is_armed-says_armed none = refl
is_armed-says_armed (some meta) = refl

-- The state that a pass leaves of the branch that it is about, and whether it goes on to fire.
abbrev passed_state : WatchState → Option WorktreeMeta → AgentLifecycle → ℕ → WatchState
passed_state state meta lifecycle now =
    if not (says_armed meta)
    then no_state
    else if state.in_flight
    then state
    else if is_over lifecycle state.idle_since_ms now
    then record state { in_flight = true }
    else record {
      idle_since_ms = if is_quiet lifecycle then some (unwrap_or state.idle_since_ms now) else none;
      in_flight = false;
    }

abbrev fires : WatchState → Option WorktreeMeta → AgentLifecycle → ℕ → Bool
fires state meta lifecycle now =
    says_armed meta && not state.in_flight && is_over lifecycle state.idle_since_ms now

decide-is_over :
    (lifecycle : AgentLifecycle) (has_pr : Bool) (since : Option ℕ) (now : ℕ)
    → ((is_over lifecycle since now ≡ true)
        × ((reason : Text) × (decide lifecycle has_pr since now idle_grace_ms ≡ fire reason)))
      ⊎ ((is_over lifecycle since now ≡ false)
          × (decide lifecycle has_pr since now idle_grace_ms
              ≡ wait (if is_quiet lifecycle then some (unwrap_or since now) else none)))
unfolding decide is_over has_settled is_quiet needs_grace is_terminal_lifecycle
decide-is_over stopped has_pr since now = inl (refl, (_, refl))
decide-is_over error has_pr since now = inl (refl, (_, refl))
decide-is_over starting has_pr since now = inr (refl, refl)
decide-is_over running has_pr since now = inr (refl, refl)
decide-is_over awaiting_permission has_pr since now = inr (refl, refl)
decide-is_over idle has_pr since now = elim (Bool-cases (leb 15000 (now - unwrap_or since now))) [
  | inl late ↦ inl (late, (fire_reason idle has_pr, ground (arith, late)))
  | inr early ↦ inr (early, ground (arith, early))
]
decide-is_over closed has_pr since now = elim (Bool-cases (leb 15000 (now - unwrap_or since now))) [
  | inl late ↦ inl (late, (fire_reason closed has_pr, ground (arith, late)))
  | inr early ↦ inr (early, ground (arith, early))
]

begin_watch-passed :
    (meta : Option WorktreeMeta) (branch other : Text) (lifecycle : AgentLifecycle) (has_pr : Bool)
    (now : ℕ) (states : WatchStates)
    → ((begin_watch meta other lifecycle has_pr now states).0
        ≡ fires (state_of other states) meta lifecycle now)
      × (state_of branch (begin_watch meta other lifecycle has_pr now states).1 ≡ (
          if other == branch
          then passed_state (state_of other states) meta lifecycle now
          else state_of branch states))
unfolding begin_watch state_of
begin_watch-passed meta branch other lifecycle has_pr now states =
    let armed_same = is_armed-says_armed meta in
    let state = state_of other states in
    elim (Bool-cases (says_armed meta)) [
      | inr disarmed ↦
          let no : is_armed meta ≡ false = armed_same ∙ disarmed in
          rw (begin_watch, no, disarmed) (refl, state_of-remove branch other states)
      | inl armed ↦
          let yes : is_armed meta ≡ true = armed_same ∙ armed in
          elim (Bool-cases state.in_flight) [
            | inl flying ↦
                rw (begin_watch, yes, armed, flying)
                  (refl, state_of-insert branch other state states)
            | inr landed ↦ elim (decide-is_over lifecycle has_pr state.idle_since_ms now) [
              | inl (over, (reason, fired)) ↦
                  rw (begin_watch, yes, armed, landed, fired, over)
                    (refl, state_of-insert branch other _ states)
              | inr (going, waits) ↦
                  rw (begin_watch, yes, armed, landed, waits, going)
                    (refl, state_of-insert branch other _ states)
            ]
          ]
    ]

end_watch-ended :
    (first again : Option WorktreeMeta) (branch other : Text) (states : WatchStates)
    (rt : ProjectRuntime)
    → state_of branch (end_watch first again other states rt).1
      ≡ (if other == branch then no_state else state_of branch states)
unfolding end_watch
end_watch-ended first again branch other states rt =
    elim (Bool-cases (auto_close first && not (is_armed again))) [
      | inl aborted ↦ rw (end_watch, aborted) (state_of-remove branch other states)
      | inr closes ↦ rw (end_watch, closes) (state_of-remove branch other states)
    ]

-- A pass over the branch itself.
passed_state-Agrees :
    (state : WatchState) (ending : Bool) (since : Option ℕ) (meta : Option WorktreeMeta)
    (lifecycle : AgentLifecycle) (now : ℕ)
    → Agrees state ending since
    → Agrees
        (passed_state state meta lifecycle now)
        (says_armed meta && (ending || is_over lifecycle since now))
        (if says_armed meta && is_quiet lifecycle then some (unwrap_or since now) else none)
passed_state-Agrees state ending since meta lifecycle now agrees =
    elim (Bool-cases (says_armed meta)) [
      | inr disarmed ↦ rw disarmed (record { flying = refl; timer = λ _. refl })
      | inl armed ↦ elim (Bool-cases ending) [
        | inl ends ↦
            let flying : state.in_flight ≡ true = agrees.flying ∙ ends in
            record {
              flying = ground (arith, armed, flying, ends);
              timer = λ e. absurd (ground (arith, e, armed, ends));
            }
        | inr stays ↦
            let flying : state.in_flight ≡ false = agrees.flying ∙ stays in
            let same : state.idle_since_ms ≡ since = agrees.timer stays in
            elim (Bool-cases (is_over lifecycle since now)) [
              | inl over ↦ record {
                flying = ground (arith, armed, flying, stays, same, over);
                timer = λ e. absurd (ground (arith, e, armed, over));
              }
              | inr going ↦ record {
                flying = ground (arith, armed, flying, stays, same, going);
                timer = λ e. ground (arith, armed, flying, stays, same, going);
              }
            ]
      ]
    ]

state_of-nil : (branch : Text) → state_of branch [] ≡ no_state
unfolding state_of lookup
state_of-nil branch = refl

-- The timers hold what the passes over each branch say.
watch_after-Agrees :
    (branch : Text) (steps : List WatchStep)
    → Agrees
        (state_of branch (watch_after steps))
        (is_ending branch steps)
        (quiet_from branch steps)
unfolding watch_after is_ending quiet_from
watch_after-Agrees branch [] =
    rw (watch_after, state_of-nil branch) (record { flying = refl; timer = λ _. refl })
watch_after-Agrees branch (passed meta other lifecycle has_pr now ∷ earlier) =
    let rest = watch_after-Agrees branch earlier in
    let state_is =
      (begin_watch-passed meta branch other lifecycle has_pr now (watch_after earlier)).1 in
    elim (Bool-cases (other == branch)) [
      | inr differs ↦ rw (state_is, differs) rest
      | inl same ↦
          rw (state_is, same, (text_beq_iff other branch).0 same)
            (passed_state-Agrees (state_of branch (watch_after earlier)) (is_ending branch earlier)
              (quiet_from branch earlier) meta lifecycle now rest)
    ]
watch_after-Agrees branch (ended first again other rt ∷ earlier) =
    let state_is = end_watch-ended first again branch other (watch_after earlier) rt in
    elim (Bool-cases (other == branch)) [
      | inr differs ↦ rw (state_is, differs) (watch_after-Agrees branch earlier)
      | inl same ↦ rw (state_is, same) (record { flying = refl; timer = λ _. refl })
    ]

-- After any passes over any worktrees and ends of runs, from no timers on, a pass goes on to end the run of
-- its branch exactly when the metadata says that the run is armed, the run is not being ended already, and the
-- agent has stopped or failed, or is idle or closed and was so, armed, at every pass over the branch for at
-- least 15 seconds: never while the agent starts, works or waits for a permission.
pub begin_watch-fires :
    (steps : List WatchStep) (meta : Option WorktreeMeta) (branch : Text)
    (lifecycle : AgentLifecycle) (has_pr : Bool) (now : ℕ)
    → (begin_watch meta branch lifecycle has_pr now (watch_after steps)).0 ≡ (
        says_armed meta
        && not (is_ending branch steps)
        && is_over lifecycle (quiet_from branch steps) now)
begin_watch-fires steps meta branch lifecycle has_pr now =
    let agrees = watch_after-Agrees branch steps in
    let fired =
      (begin_watch-passed meta branch branch lifecycle has_pr now (watch_after steps)).0 in
    elim (Bool-cases (is_ending branch steps)) [
      | inl ends ↦ fired ∙ rw (agrees.flying, ends) (ground arith)
      | inr stays ↦ fired ∙ rw (agrees.flying, agrees.timer stays) refl
    ]
