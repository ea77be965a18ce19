-- ===== src/Convert/Run/Careful.antt =====
-- No agent is prompted before its worktree has the note, where git does not see it.
use sebenza.Base.{
  Text, ◌≡◌, refl, ap, ◌∙◌, inl, inr, Bool, true, false, Option, none, some, List, [], ◌∷◌, ◌++◌,
  map, arith, ◌==◌, nat_eq, text_eq, text_beq_refl, if◌then◌else◌, Option-cases,
}
use mathlib.Core.Option.{some-injective}
use sebenza.World.{Result-cases}
use sebenza.Convert.{ConversionTarget, ConversionOutcome, outcome_created, outcome_failed}
use sebenza.Convert.Run.{
  Call, create, note, exclude, origin, prompt, Runner, ConversionItem, LaunchPrompt, launch_of,
  run_prompt, run_exclude, run_note, run_create, run_one, run_conversion_item, fail,
}

-- How far the worktree at hand is.
pub data Progress : Type 0 where
  nothing : Progress
  noted hidden : Text → Progress

-- The progress after a call, or nothing for a call that comes too early: a note is hidden after it
-- was written, and a prompt goes to a worktree whose note is hidden.
abbrev pub after_call : Progress → Call → Option Progress
after_call st (create _ _) = some nothing
after_call st (note path true) = some (noted path)
after_call st (note path false) = some nothing
after_call (noted p) (exclude path true) = if p == path then some (hidden path) else none
after_call nothing (exclude path true) = none
after_call (hidden p) (exclude path true) = none
after_call st (exclude path false) = some nothing
after_call st (origin path) = some st
after_call (hidden p) (prompt path _) = if p == path then some (hidden path) else none
after_call nothing (prompt path _) = none
after_call (noted p) (prompt path _) = none

unfoldable pub is_careful_from : Progress → List Call → Bool
is_careful_from st [] = true
is_careful_from st (call ∷ calls) = elim (after_call st call) [
  | none ↦ false
  | some st' ↦ is_careful_from st' calls
]

abbrev pub is_careful : List Call → Bool
is_careful calls = is_careful_from nothing calls

-- Where a list of calls leads.
unfoldable pub run_calls : Progress → List Call → Option Progress
run_calls st [] = some st
run_calls st (call ∷ calls) = elim (after_call st call) [
  | none ↦ none
  | some st' ↦ run_calls st' calls
]

run_calls-append :
    (st st' : Progress) (xs ys : List Call)
    → run_calls st xs ≡ some st'
    → run_calls st (xs ++ ys) ≡ run_calls st' ys
unfolding run_calls
run_calls-append st st' [] ys h = ap (λ s. run_calls s ys) (some-injective st st' h)
run_calls-append st st' (x ∷ xs) ys h = elim (Option-cases (after_call st x)) [
  | inl early ↦ absurd (ground (arith, rw (run_calls, early) at h))
  | inr (next, done) ↦
      rw (run_calls, done) (run_calls-append next st' xs ys (rw (run_calls, done) at h))
]

-- The calls so far are careful.
abbrev Leads : List Call → Type 0
Leads calls = (st : Progress) × (run_calls nothing calls ≡ some st)

-- The outcome is about the target, and the calls are careful.
record Ran (target : ConversionTarget) (result : ConversionOutcome × List Call) : Type 0 where
  project : result.0.project_path ≡ target.project_path
  branch : result.0.branch ≡ target.branch
  careful : Leads result.1

starts :
    (st : Progress) (target : ConversionTarget) (made : Bool)
    → run_calls st (create target made ∷ []) ≡ some nothing
unfolding run_calls
starts nothing target made = refl
starts (noted p) target made = refl
starts (hidden p) target made = refl

module _ (runner : Runner) (item : ConversionItem) (target : ConversionTarget)
    (launch : LaunchPrompt) where
  fail-Ran :
      (e : Text) (calls : List Call)
      → Leads calls
      → Ran target (fail runner item target launch e calls)
  unfolding outcome_failed
  fail-Ran e calls careful = record { project = refl; branch = refl; careful = careful }

  run_prompt-Ran :
      (path : Text) (calls : List Call)
      → run_calls nothing calls ≡ some (hidden path)
      → Ran target (run_prompt runner item target launch path calls)
  unfolding run_prompt outcome_created run_calls
  run_prompt-Ran path calls ready =
      let more : ((sent : Bool) → Leads (calls ++ prompt path sent ∷ [])) = λ sent. (
        hidden path,
        run_calls-append nothing (hidden path) calls (prompt path sent ∷ []) ready
            ∙ ground (arith, text_beq_refl path),
      ) in
      elim (Result-cases (runner.send_prompt calls (record target { prompt = launch.text }) path)) [
        | inl (done, sent) ↦
            rw (run_prompt, sent) (record { project = refl; branch = refl; careful = more true })
        | inr (e, failed) ↦ rw (run_prompt, failed) (fail-Ran e _ (more false))
      ]

  run_exclude-Ran :
      (path : Text) (calls : List Call)
      → run_calls nothing calls ≡ some (noted path)
      → Ran target (run_exclude runner item target launch path calls)
  unfolding run_exclude run_calls
  run_exclude-Ran path calls ready =
      let hid : run_calls nothing (calls ++ exclude path true ∷ origin path ∷ [])
          ≡ some (hidden path) =
        run_calls-append nothing (noted path) calls (exclude path true ∷ origin path ∷ []) ready
        ∙ ground (arith, text_beq_refl path) in
      elim (Result-cases (runner.exclude_note calls path)) [
        | inl (done, excluded) ↦ rw (run_exclude, excluded) (run_prompt-Ran path _ hid)
        | inr (e, failed) ↦
            rw (run_exclude, failed)
              (fail-Ran e _ (
                nothing,
                run_calls-append nothing (noted path) calls (exclude path false ∷ []) ready,
              ))
      ]

  run_note-Ran :
      (path : Text) (calls : List Call)
      → run_calls nothing calls ≡ some nothing
      → Ran target (run_note runner item target launch path calls)
  unfolding run_note run_calls
  run_note-Ran path calls ready = elim (Result-cases (runner.write_note calls path item.body)) [
    | inl (done, written) ↦
        rw (run_note, written)
          (run_exclude-Ran path _
            (run_calls-append nothing nothing calls (note path true ∷ []) ready))
    | inr (e, failed) ↦
        rw (run_note, failed)
          (fail-Ran e _
            (nothing, run_calls-append nothing nothing calls (note path false ∷ []) ready))
  ]

  run_create-Ran :
      (calls : List Call) → Leads calls → Ran target (run_create runner item target launch calls)
  unfolding run_create run_calls
  run_create-Ran calls (st, ready) = elim (Result-cases (runner.create_worktree calls target)) [
    | inl (path, created) ↦
        rw (run_create, created)
          (run_note-Ran path _ (
            run_calls-append nothing st calls (create target true ∷ []) ready
            ∙ starts st target true))
    | inr (e, failed) ↦
        rw (run_create, failed)
          (fail-Ran e _ (
            nothing,
            run_calls-append nothing st calls (create target false ∷ []) ready
                ∙ starts st target false,
          ))
  ]

Leads-is_careful :
    (calls : List Call) (st st' : Progress)
    → run_calls st calls ≡ some st'
    → is_careful_from st calls ≡ true
unfolding run_calls is_careful_from
Leads-is_careful [] st st' h = refl
Leads-is_careful (call ∷ calls) st st' h = elim (Option-cases (after_call st call)) [
  | inl early ↦ absurd (ground (arith, rw (run_calls, early) at h))
  | inr (next, done) ↦
      rw (is_careful_from, done) (Leads-is_careful calls next st' (rw (run_calls, done) at h))
]

abbrev pub outcome_keys : List ConversionOutcome → List (Text × Text)
outcome_keys outcomes = map (λ o. (o.project_path, o.branch)) outcomes

abbrev pub target_keys : List ConversionTarget → List (Text × Text)
target_keys targets = map (λ t. (t.project_path, t.branch)) targets

wave-Ran :
    (runner : Runner) (item : ConversionItem) (targets : List ConversionTarget) (calls : List Call)
    → Leads calls
    → (outcome_keys (run_conversion_item runner item targets calls).0 ≡ target_keys targets)
      × Leads (run_conversion_item runner item targets calls).1
unfolding run_conversion_item run_one
wave-Ran runner item [] calls careful = (refl, careful)
wave-Ran runner item (target ∷ targets) calls careful =
    let ran =
      run_create-Ran runner item target (launch_of runner item target calls) calls careful in
    let rest = wave-Ran runner item targets (run_one runner item target calls).1 ran.careful in
    (ground (arith, ran.project, ran.branch, rest.0), rest.1)

-- Whatever the runner answers: a wave has one outcome for each target, in order; and in all that it
-- does, an agent is prompted only in a worktree into which the note was written, and where the note was
-- hidden from git right after that, both with success.
pub run_conversion_item-is_careful :
    (runner : Runner) (item : ConversionItem) (targets : List ConversionTarget)
    → (outcome_keys (run_conversion_item runner item targets []).0 ≡ target_keys targets)
      × (is_careful (run_conversion_item runner item targets []).1 ≡ true)
unfolding run_calls
run_conversion_item-is_careful runner item targets =
    let (keys, (st, leads)) = wave-Ran runner item targets [] (nothing, refl) in
    (keys, Leads-is_careful (run_conversion_item runner item targets []).1 nothing st leads)
