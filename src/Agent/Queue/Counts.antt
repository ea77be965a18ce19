-- ===== src/Agent/Queue/Counts.antt =====
-- How often an id stands in the lists of the queue, and what the steps change of it.
use sebenza.Base.{
  contains-append, ℕ, suc, ◌+◌, Text, ◌≡◌, refl, subst, inl, inr, Bool, true, false, not, ◌&&◌,
  ◌||◌, Option, none, some, List, [], ◌∷◌, ◌++◌, map, arith, ◌==◌, nat_eq, text_eq, text_beq_iff,
  if◌then◌else◌, filter, contains, length, insert, remove, Bool-cases, Option-cases, lookup-insert,
  lookup-remove,
}
use mathlib.Core.Option.{some-injective}
use sebenza.Agent.{JobRecord}
use sebenza.Agent.Queue.{Waiting, Task, insert_waiting, take_first, mark, unmark, job_draft}

unfoldable pub count : Text → List Text → ℕ
count id [] = 0
count id (x ∷ xs) = let rest = count id xs in if x == id then suc rest else rest

pub count-append : (id : Text) (xs ys : List Text) → count id (xs ++ ys) ≡ count id xs + count id ys
unfolding count
count-append id [] ys = omega arith
count-append id (x ∷ xs) ys = ground (arith, count-append id xs ys)

abbrev pub waiting_ids : List Waiting → List Text
waiting_ids entries = map (λ e. e.job_id) entries

abbrev pub task_ids : List Task → List Text
task_ids tasks = map (λ t. t.job_id) tasks

abbrev pub task_drafts : List Task → List Text
task_drafts tasks = map (λ t. t.draft_id) tasks

-- 1 for the id itself, and 0 for another
abbrev pub one_if : Bool → ℕ
one_if true = 1
one_if false = 0

pub count-insert_waiting :
    (id : Text) (new : Waiting) (entries : List Waiting)
    → count id (waiting_ids (insert_waiting new entries))
      ≡ count id (waiting_ids entries) + one_if (new.job_id == id)
unfolding insert_waiting count
count-insert_waiting id new [] = ground arith
count-insert_waiting id new (e ∷ entries) = ground (arith, count-insert_waiting id new entries)

-- The entry taken passes the test, and the others are as they were.
pub record IsTaken (p : Waiting → Bool) (entries : List Waiting) (e : Waiting) (rest : List Waiting)
    : Type 0 where
  pub passes : p e ≡ true
  pub counts :
      (id : Text)
      → count id (waiting_ids entries) ≡ count id (waiting_ids rest) + one_if (e.job_id == id)
  pub shorter : length entries ≡ suc (length rest)

equal_IsTaken :
    (p : Waiting → Bool) (entries : List Waiting) (found e : Waiting) (others rest : List Waiting)
    → IsTaken p entries found others
    → Path (Option (Waiting × List Waiting)) (some (found, others)) (some (e, rest))
    → IsTaken p entries e rest
equal_IsTaken p entries found e others rest taken same =
    subst (λ q. IsTaken p entries q.0 q.1) (some-injective (found, others) (e, rest) same) taken

pub take_first-some :
    (p : Waiting → Bool) (entries : List Waiting) (e : Waiting) (rest : List Waiting)
    → take_first p entries ≡ some (e, rest)
    → IsTaken p entries e rest
unfolding take_first count
take_first-some p [] e rest h = absurd (ground (arith, h))
take_first-some p (x ∷ entries) e rest h = elim (Bool-cases (p x)) [
  | inl passes ↦
      equal_IsTaken p (x ∷ entries) x e entries rest
        (record { passes = passes; counts = λ id. ground arith; shorter = refl }) (rw passes at h)
  | inr other ↦ elim (Option-cases (take_first p entries)) [
    | inl nothing ↦ absurd (ground (arith, rw (other, nothing) at h))
    | inr ((found, others), taken) ↦
        let before = take_first-some p entries found others taken in
        equal_IsTaken p (x ∷ entries) found e (x ∷ others) rest
          (record {
            passes = before.passes;
            counts = λ id. ground (arith, before.counts id);
            shorter = ground (arith, before.shorter);
          })
          (rw (other, taken) at h)
  ]
]

pub contains-mark :
    (d other : Text) (busy : List Text)
    → contains (mark d busy) other ≡ (contains busy other || d == other)
unfolding mark contains
contains-mark d other busy =
    ground (arith, contains-append busy (d ∷ []) other, text_beq_iff d other)

pub contains-unmark :
    (d other : Text) (busy : List Text)
    → contains (unmark d busy) other ≡ (contains busy other && not (d == other))
unfolding unmark filter contains
contains-unmark d other [] = refl
contains-unmark d other (b ∷ busy) = ground (
  arith,
  contains-unmark d other busy,
  text_beq_iff b d,
  text_beq_iff b other,
  text_beq_iff d other,
)

-- A job's draft, where another job's record is replaced or removed.
pub job_draft-insert :
    (jobs : List (Text × (ℕ × JobRecord))) (key id : Text) (number : ℕ) (job : JobRecord)
    → job_draft (insert key (number, job) jobs) id
      ≡ (if key == id then some job.draft_id else job_draft jobs id)
job_draft-insert jobs key id number job = ground (arith, lookup-insert key id (number, job) jobs)

pub job_draft-remove :
    (jobs : List (Text × (ℕ × JobRecord))) (key id : Text)
    → job_draft (remove key jobs) id ≡ (if key == id then none else job_draft jobs id)
job_draft-remove jobs key id = ground (arith, lookup-remove key id jobs)
