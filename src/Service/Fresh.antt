-- ===== src/Service/Fresh.antt =====
-- The number of the next attempt to deliver, which crates/common/src/services/inbox_service.rs takes from
-- the fold of the log: no delivery in the log has it.
use sebenza.Service.Deliver.{Attempted}
use sebenza.Events.Fold.Redaction.{lifecycle}
use sebenza.Service.Views.{view_of, tracked_view}
use sebenza.Service.Reads.{log_of}
use sebenza.World.{World, Env}
use sebenza.Base.{
  subst, ℕ, ◌+◌, ◌^◌, ◌≤◌, ◌<◌, Text, ◌≡◌, ◌⊎◌, refl, ap, ◌∙◌, inl, inr, Bool, true, false, ◌&&◌,
  ◌||◌, Option, none, some, List, [], ◌∷◌, ◌++◌, ◌==◌, ltb, find, arith, nat_eq, text_eq,
  if◌then◌else◌, Bool-cases, max,
}
use sebenza.Events.{
  WorktreeKey, InboxEvent, InboxEventKind, RequestView, request_opened, delivered, delivery_failed,
  request_id_of,
}
use sebenza.Events.Fold.{apply_kind, new_view}
use sebenza.Events.Fold.Track.{track, track_kind}
use sebenza.Service.{next_attempt, opens_request}
use sebenza.Service.Decisions.{is_attempt}

-- One more event, which the test does not hold of.
pub find_still :
    (p : InboxEvent → Bool) (log : List InboxEvent) (e : InboxEvent)
    → find p log ≡ none
    → p e ≡ false
    → find p (log ++ e ∷ []) ≡ none
unfolding find
find_still p [] e n h = ground (arith, h)
find_still p (x ∷ log) e n h = ground (arith, h, n, find_still p log e)

-- The attempt that an event is a delivery of, for a request.
unfoldable pub attempt_in : Text → InboxEventKind → Option ℕ
attempt_in rid (delivered r a) = if r == rid then some a else none
attempt_in rid (delivery_failed r a _) = if r == rid then some a else none
attempt_in rid _ = none

-- An attempt was made of a request that was open before, and is not the last that fits in 32 bits.
unfoldable pub is_due : Bool → Option ℕ → Bool
is_due opened none = true
is_due opened (some a) = opened && ltb (a + 1) (2 ^ 32)

-- Every delivery of the request in a log is due.
unfoldable pub is_orderly : Text → Bool → List InboxEvent → Bool
is_orderly rid opened [] = true
is_orderly rid opened (e ∷ log) =
    is_due opened (attempt_in rid e.kind) && is_orderly rid (opened || opens_request rid e.kind) log

-- What is behind a number of attempts: there is a next number, and no delivery in the log has a larger one.
record IsCounted (rid : Text) (n : ℕ) (log : List InboxEvent) : Type 0 where
  room : n + 1 < 2 ^ 32
  unused : (a : ℕ) → n < a → find (λ e. is_attempt rid a e.kind) log ≡ none

is_attempt_in :
    (rid : Text) (a : ℕ) (k : InboxEventKind)
    → is_attempt rid a k ≡ (elim (attempt_in rid k) [ none ↦ false | some n ↦ n == a ])
unfolding attempt_in
is_attempt_in rid a (delivered r n) = ground arith
is_attempt_in rid a (delivery_failed r n _) = ground arith
is_attempt_in rid a _ = refl

abbrev counted : ℕ → Option ℕ → ℕ
counted n none = n
counted n (some a) = max n a

-- A due attempt leaves room, and its number is not above what is counted.
counted_room :
    (n : ℕ) (o : Option ℕ)
    → is_due true o ≡ true
    → n + 1 < 2 ^ 32
    → (n ≤ counted n o) × (counted n o + 1 < 2 ^ 32)
unfolding is_due
counted_room n none due room = (omega arith, room)
counted_room n (some a) due room = (ground arith, ground (arith, due, room))

undue : (o : Option ℕ) → is_due false o ≡ true → o ≡ none
unfolding is_due
undue none due = refl
undue (some a) due = absurd (ground (arith, due))

counted_unused :
    (n a : ℕ) (o : Option ℕ) → counted n o < a → (elim o [ none ↦ false | some k ↦ k == a ]) ≡ false
counted_unused n a none less = refl
counted_unused n a (some k) less = ground (arith, less)

IsCounted-cons :
    (rid : Text) (n : ℕ) (e : InboxEvent) (log : List InboxEvent) (c : ℕ)
    → c ≤ n
    → ((a : ℕ) → c < a → is_attempt rid a e.kind ≡ false)
    → IsCounted rid n log
    → IsCounted rid n (e ∷ log)
unfolding find
IsCounted-cons rid n e log c less here counts = record {
  room = counts.room;
  unused = λ a larger. ground (arith, here a (omega (arith, less, larger)), counts.unused a larger);
}

module _ (h : Text → Text) (rid : Text) where
  -- One event of an open request: the number of attempts grows to that of a delivery.
  track_kind-attempts :
      (v : RequestView) (ts : Text) (k : InboxEventKind)
      → (u : RequestView) × (track_kind h rid (some v) ts k ≡ some u)
        × (u.attempts ≡ counted v.attempts (attempt_in rid k))
  unfolding track_kind request_id_of apply_kind attempt_in
  track_kind-attempts v ts (delivered r n) =
      (if r == rid then apply_kind h v (delivered r n) else v, ground arith, ground arith)
  track_kind-attempts v ts (delivery_failed r n error) = (
    if r == rid then apply_kind h v (delivery_failed r n error) else v,
    ground arith,
    ground arith,
  )
  track_kind-attempts v ts k = (
    elim (request_id_of k) [ none ↦ v | some r ↦ if r == rid then apply_kind h v k else v ],
    ground arith,
    ground arith,
  )

  -- One event for a request that is not there: it opens it, or is no attempt of it if it is due.
  track_kind-opens :
      (ts : Text) (k : InboxEventKind)
      → ((opens_request rid k ≡ false) × (track_kind h rid none ts k ≡ none))
        ⊎ ((opens_request rid k ≡ true)
            × ((u : RequestView) × (track_kind h rid none ts k ≡ some u) × (u.attempts ≡ 0)))
  unfolding track_kind
  track_kind-opens ts (request_opened r worktree title body ws) = elim (Bool-cases (r == rid)) [
    | inl own ↦ inr (own, (new_view r worktree title body ws ts, ground (arith, own), refl))
    | inr other ↦ inl (other, ground (arith, other))
  ]
  track_kind-opens ts _ = inl (refl, refl)

  IsCounted-track :
      (v u : RequestView) (log : List InboxEvent)
      → track h rid (some v) log ≡ some u
      → is_orderly rid true log ≡ true
      → v.attempts + 1 < 2 ^ 32
      → (v.attempts ≤ u.attempts) × IsCounted rid u.attempts log
  unfolding track is_orderly find
  IsCounted-track v u [] same orderly room =
      let alike : v.attempts ≡ u.attempts = ground (arith, same) in
      (
        omega (arith, alike),
        record { room = omega (arith, alike, room); unused = λ a larger. refl },
      )
  IsCounted-track v u (e ∷ log) same orderly room =
      let (v1, stepped, grown) = track_kind-attempts v e.ts e.kind in
      let (up, fits) =
        counted_room v.attempts (attempt_in rid e.kind) (ground (arith, orderly)) room in
      let (more, counts) =
        IsCounted-track v1 u log (rw stepped at same) (ground (arith, orderly))
          (omega (arith, grown, fits)) in
      (
        omega (arith, grown, up, more),
        IsCounted-cons rid u.attempts e log v1.attempts more
            (λ a larger.
              is_attempt_in rid a e.kind
              ∙ counted_unused v.attempts a (attempt_in rid e.kind) (omega (arith, grown, larger)))
            counts,
      )

  IsCounted-opened :
      (u : RequestView) (log : List InboxEvent)
      → track h rid none log ≡ some u
      → is_orderly rid false log ≡ true
      → IsCounted rid u.attempts log
  unfolding track is_orderly
  IsCounted-opened u [] same orderly = absurd (ground (arith, same))
  IsCounted-opened u (e ∷ log) same orderly =
      let none_here : attempt_in rid e.kind ≡ none =
        undue (attempt_in rid e.kind) (ground (arith, orderly)) in
      let here : (a : ℕ) → is_attempt rid a e.kind ≡ false =
        λ a. rw (is_attempt_in rid a e.kind, none_here) refl in
      elim (track_kind-opens e.ts e.kind) [
        | inl (other, stepped) ↦
            IsCounted-cons rid u.attempts e log 0 (omega arith) (λ a _. here a)
              (IsCounted-opened u log (rw stepped at same) (ground (arith, orderly, other)))
        | inr (own, (v, stepped, fresh)) ↦
            IsCounted-cons rid u.attempts e log 0 (omega arith) (λ a _. here a)
              (IsCounted-track v u log (rw stepped at same) (ground (arith, orderly, own))
                (omega (arith, fresh))).1
      ]

module _ {V : Type 0} (env : Env V) (id rid : Text) (w : World V) (v : RequestView) where
  -- The attempt that follows the ones that a reader sees is new, and its number is one more.
  pub next_attempt-new :
      view_of env id rid w ≡ some v
      → is_orderly rid false (log_of id w) ≡ true
      → (next_attempt v.attempts ≡ v.attempts + 1)
        × (find (λ e. is_attempt rid (next_attempt v.attempts) e.kind) (log_of id w) ≡ none)
  unfolding lifecycle
  next_attempt-new was orderly =
      let (u, tracked, alike) = tracked_view env id rid w v was in
      let same : u.attempts ≡ v.attempts = ap (λ x. x.attempts) alike in
      let counts = IsCounted-opened env.sha1_hex rid u (log_of id w) tracked orderly in
      let next : next_attempt v.attempts ≡ v.attempts + 1 = omega (arith, counts.room, same) in
      (next, counts.unused (next_attempt v.attempts) (omega (arith, next, same)))

-- An attempt, by another spelling of its number.
pub Attempted-at :
    {V : Type 0} (worktree : WorktreeKey) (rid text : Text) (env : Env V) (id : Text) (n m : ℕ)
    (w : World V) (e : InboxEvent) (w' : World V)
    → n ≡ m
    → Attempted worktree rid text env id n w e w'
    → Attempted worktree rid text env id m w e w'
Attempted-at worktree rid text env id n m w e w' same made =
    subst (λ k. Attempted worktree rid text env id k w e w') same made
