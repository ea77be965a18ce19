-- ===== src/Events/Fold/Track.antt =====
-- The fold over the whole log, seen from one request: it is the state machine of that request's own
-- events, and no other event matters.
use sebenza.Base.{
  ap, ◌∙◌, ◌≢◌, false, Text, ◌≡◌, refl, true, not, Option, none, some, List, [], ◌∷◌, ◌++◌, ◌==◌,
  all, find, text_eq, text_beq_iff, if◌then◌else◌, arith,
}
use sebenza.Events.{
  WorktreeKey, unknown, delivery_failed, delivered, resolution_confirmed, rejected, triage_failed,
  advice, redacted, priority_changed, InboxEvent, InboxEventKind, RequestView, comment,
  request_opened, proposal, request_id_of,
}
use sebenza.Events.Fold.{
  fold_from, fold_requests, fold_kind, modify_first, new_view, apply_kind, find_view,
}

module _ (sha1_hex : Text → Text) where
  -- What one event does to request `rid`: it opens it, changes it, or leaves it alone.
  unfoldable pub track_kind : Text → Option RequestView → Text → InboxEventKind → Option RequestView
  unfolding request_id_of
  track_kind rid none ts (request_opened r worktree title body ws) =
      if r == rid then some (new_view r worktree title body ws ts) else none
  track_kind rid none ts k = none
  track_kind rid (some v) ts k = elim (request_id_of k) [
    | none ↦ some v
    | some r ↦ if r == rid then some (apply_kind sha1_hex v k) else some v
  ]

  unfoldable pub track : Text → Option RequestView → List InboxEvent → Option RequestView
  track rid o [] = o
  track rid o (e ∷ events) = track rid (track_kind rid o e.ts e.kind) events

apply_kind-request_id :
    (sha1_hex : Text → Text) (v : RequestView) (k : InboxEventKind)
    → (apply_kind sha1_hex v k).request_id ≡ v.request_id
unfolding apply_kind
apply_kind-request_id h v (proposal r pid body rat ws) = ground arith
apply_kind-request_id h v (comment t b ws) = refl
apply_kind-request_id h v _ = refl

find_view-append :
    (rid : Text) (views : List RequestView) (v : RequestView)
    → find_view rid (views ++ v ∷ []) ≡ (elim (find_view rid views) [
      | none ↦ if v.request_id == rid then some v else none
      | some w ↦ some w
    ])
unfolding find_view find
find_view-append rid [] v = refl
find_view-append rid (x ∷ views) v = ground (arith, find_view-append rid views v)

-- A change of the views of `r` that keeps their id.
find_view-modify :
    (rid r : Text) (f : RequestView → RequestView) (views : List RequestView)
    → ((v : RequestView) → (f v).request_id ≡ v.request_id)
    → find_view rid (modify_first (λ v. v.request_id == r) f views) ≡ (elim (find_view rid views) [
      | none ↦ none
      | some v ↦ if r == rid then some (f v) else some v
    ])
unfolding find_view find modify_first
find_view-modify rid r f [] same = refl
find_view-modify rid r f (x ∷ views) same = ground (
  arith,
  find_view-modify rid r f views same,
  same x,
  text_beq_iff x.request_id r,
  text_beq_iff x.request_id rid,
  text_beq_iff r rid,
)

all-find_view :
    (rid : Text) (views : List RequestView)
    → all (λ v. not (v.request_id == rid)) views ≡ true
    → find_view rid views ≡ none
unfolding all find_view find
all-find_view rid [] h = refl
all-find_view rid (x ∷ views) h = ground (arith, all-find_view rid views)

all-false-find_view :
    (rid : Text) (views : List RequestView)
    → all (λ v. not (v.request_id == rid)) views ≡ false
    → find_view rid views ≢ none
unfolding all find_view find
all-false-find_view rid [] h = cc
all-false-find_view rid (x ∷ views) h = ground (arith, all-false-find_view rid views)

module _ (sha1_hex : Text → Text) where
  touched :
      (rid r : Text) (views : List RequestView) (k : InboxEventKind)
      → find_view rid (modify_first (λ v. v.request_id == r) (λ v. apply_kind sha1_hex v k) views)
        ≡ (elim (find_view rid views) [
          | none ↦ none
          | some v ↦ if r == rid then some (apply_kind sha1_hex v k) else some v
        ])
  touched rid r views k =
      find_view-modify rid r (λ v. apply_kind sha1_hex v k) views
        (λ v. apply_kind-request_id sha1_hex v k)

  find_view-opened :
      (rid r : Text) (views : List RequestView) (ts : Text) (wt : WorktreeKey) (title body : Text)
      (ws : List Text)
      → find_view rid (fold_kind sha1_hex views ts (request_opened r wt title body ws))
        ≡ track_kind sha1_hex rid (find_view rid views) ts (request_opened r wt title body ws)
  unfolding fold_kind track_kind apply_kind
  find_view-opened rid r views ts wt title body ws = ground (
    arith,
    find_view-append rid views (new_view r wt title body ws ts),
    all-find_view r views,
    all-false-find_view r views,
    text_beq_iff r rid,
  )

  find_view-fold_kind :
      (rid : Text) (views : List RequestView) (ts : Text) (k : InboxEventKind)
      → find_view rid (fold_kind sha1_hex views ts k)
        ≡ track_kind sha1_hex rid (find_view rid views) ts k
  unfolding fold_kind track_kind
  find_view-fold_kind rid views ts (request_opened r wt title body ws) =
      find_view-opened rid r views ts wt title body ws
  find_view-fold_kind rid views ts (comment t b ws) = ground arith
  find_view-fold_kind rid views ts (priority_changed a b s) = ground arith
  find_view-fold_kind rid views ts (redacted t) = ground arith
  find_view-fold_kind rid views ts unknown = ground arith
  find_view-fold_kind rid views ts (proposal r pid body rationale ws) =
      ground (arith, touched rid r views (proposal r pid body rationale ws))
  find_view-fold_kind rid views ts (advice r body ws) =
      ground (arith, touched rid r views (advice r body ws))
  find_view-fold_kind rid views ts (triage_failed r error) =
      ground (arith, touched rid r views (triage_failed r error))
  find_view-fold_kind rid views ts (rejected r reason) =
      ground (arith, touched rid r views (rejected r reason))
  find_view-fold_kind rid views ts (resolution_confirmed r pid hash text edited ws) =
      ground (arith, touched rid r views (resolution_confirmed r pid hash text edited ws))
  find_view-fold_kind rid views ts (delivered r attempt) =
      ground (arith, touched rid r views (delivered r attempt))
  find_view-fold_kind rid views ts (delivery_failed r attempt error) =
      ground (arith, touched rid r views (delivery_failed r attempt error))

  find_view-fold_from :
      (rid : Text) (views : List RequestView) (events : List InboxEvent)
      → find_view rid (fold_from sha1_hex views events)
        ≡ track sha1_hex rid (find_view rid views) events
  unfolding fold_from track
  find_view-fold_from rid views [] = refl
  find_view-fold_from rid views (e ∷ events) =
      find_view-fold_from rid (fold_kind sha1_hex views e.ts e.kind) events
      ∙ ap (λ o. track sha1_hex rid o events) (find_view-fold_kind rid views e.ts e.kind)

  -- For every log and every request id, the view that the fold over the whole log holds for that id
  -- is the view that the request's own state machine reaches: `track` opens it at its first
  -- `request_opened`, lets only events that name the id change it, and leaves it absent otherwise.
  pub find_view-fold_requests :
      (rid : Text) (events : List InboxEvent)
      → find_view rid (fold_requests sha1_hex events) ≡ track sha1_hex rid none events
  unfolding fold_requests find_view find
  find_view-fold_requests rid events = find_view-fold_from rid [] events
