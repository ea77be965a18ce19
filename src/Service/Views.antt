-- ===== src/Service/Views.antt =====
-- The view of a request that a reader of its item has, and how one more event changes it.
use mathlib.Core.Option
use sebenza.Base.{
  Text, ◌≡◌, refl, sym, ap, ◌∙◌, Option, none, some, List, [], ◌∷◌, ◌++◌, map, ◌==◌, text_eq,
  text_beq_iff, arith, find, if◌then◌else◌,
}
use sebenza.Events.{InboxEvent, InboxEventKind, RequestView, request_id_of, apply_redactions}
use sebenza.Events.Fold.{apply_kind, fold_requests, find_view}
use sebenza.Events.Fold.Track.{track, track_kind, find_view-fold_requests}
use sebenza.Events.Fold.Redaction.{lifecycle, lifecycle-apply_redactions, lifecycle-unmasked}
use sebenza.World.{World, Env}
use sebenza.Service.Reads.{log_of}

unfoldable pub view_of : {V : Type 0} → Env V → Text → Text → World V → Option RequestView
view_of env id rid w = find_view rid (fold_requests env.sha1_hex (apply_redactions (log_of id w)))

find_view-lifecycle :
    (rid : Text) (views : List RequestView)
    → find_view rid (map lifecycle views) ≡ Option.map lifecycle (find_view rid views)
unfolding find_view find lifecycle
find_view-lifecycle rid [] = refl
find_view-lifecycle rid (v ∷ views) = ground (arith, find_view-lifecycle rid views)

module _ (h : Text → Text) (rid : Text) where
  track-append :
      (o : Option RequestView) (log : List InboxEvent) (e : InboxEvent)
      → track h rid o (log ++ e ∷ []) ≡ track_kind h rid (track h rid o log) e.ts e.kind
  unfolding track
  track-append o [] e = refl
  track-append o (x ∷ log) e = track-append (track_kind h rid o x.ts x.kind) log e

  -- Redaction hides nothing of a request's lifecycle.
  track-redacted :
      (log : List InboxEvent)
      → Option.map lifecycle (find_view rid (fold_requests h (apply_redactions log)))
        ≡ Option.map lifecycle (track h rid none log)
  track-redacted log =
      sym (find_view-lifecycle rid (fold_requests h (apply_redactions log)))
      ∙ ap (find_view rid) (lifecycle-apply_redactions h log)
      ∙ find_view-lifecycle rid (fold_requests h log)
      ∙ ap (Option.map lifecycle) (find_view-fold_requests h rid log)

  track_kind-own :
      (u : RequestView) (ts : Text) (k : InboxEventKind)
      → request_id_of k ≡ some rid
      → track_kind h rid (some u) ts k ≡ some (apply_kind h u k)
  unfolding track_kind
  track_kind-own u ts k own = by_id (request_id_of k) own
    where
      by_id :
          (o : Option Text)
          → o ≡ some rid
          → (elim o as (λ _. Option RequestView) [
            | none ↦ some u
            | some r ↦ if r == rid then some (apply_kind h u k) else some u
          ])
            ≡ some (apply_kind h u k)
      by_id none e = cc
      by_id (some r) e = ground (arith, text_beq_iff r rid, e)

some-lifecycle :
    (o : Option RequestView) (v : RequestView)
    → Option.map lifecycle o ≡ some (lifecycle v)
    → (u : RequestView) × (o ≡ some u) × (lifecycle u ≡ lifecycle v)
some-lifecycle none v e = cc
some-lifecycle (some u) v e = (u, refl, ap (unwrap_or_else (lifecycle v)) e)
  where
    unwrap_or_else : RequestView → Option RequestView → RequestView
    unwrap_or_else d none = d
    unwrap_or_else d (some x) = x

-- The request's own state machine reaches the view that a reader has, up to what redaction hides.
pub tracked_view :
    {V : Type 0} (env : Env V) (id rid : Text) (w : World V) (v : RequestView)
    → view_of env id rid w ≡ some v
    → (u : RequestView) × (track env.sha1_hex rid none (log_of id w) ≡ some u)
      × (lifecycle u ≡ lifecycle v)
unfolding view_of
tracked_view env id rid w v was =
    some-lifecycle (track env.sha1_hex rid none (log_of id w)) v
      (sym (track-redacted env.sha1_hex rid (log_of id w)) ∙ ap (Option.map lifecycle) was)

-- One more event of the request: its view is there still, and is what the event makes of it.
module _ {V : Type 0} (env : Env V) (id rid : Text) (w w' : World V) (e : InboxEvent)
    (v : RequestView) where
  pub view_of-append :
      log_of id w' ≡ log_of id w ++ e ∷ []
      → request_id_of e.kind ≡ some rid
      → view_of env id rid w ≡ some v
      → (v' : RequestView) × (view_of env id rid w' ≡ some v')
        × (lifecycle v' ≡ lifecycle (apply_kind env.sha1_hex v e.kind))
  unfolding view_of
  view_of-append grown own was =
      let h = env.sha1_hex in
      let old = log_of id w in
      let (u, tracked, alike) = tracked_view env id rid w v was in
      let after : track h rid none (log_of id w') ≡ some (apply_kind h u e.kind) =
        rw (grown, track-append h rid none old e, tracked)
          (track_kind-own h rid u e.ts e.kind own) in
      let same : lifecycle (apply_kind h u e.kind) ≡ lifecycle (apply_kind h v e.kind) =
        lifecycle-unmasked h u e.kind
        ∙ ap (λ x. lifecycle (apply_kind h x e.kind)) alike
        ∙ sym (lifecycle-unmasked h v e.kind) in
      some-lifecycle _ (apply_kind h v e.kind)
        (track-redacted h rid (log_of id w') ∙ ap (Option.map lifecycle) after ∙ ap some same)
