-- ===== src/Events/Fold/Redaction.antt =====
-- Redaction masks bodies at every read and leaves the state of every request as it was.
use mathlib.Core.List.{map-append}
use sebenza.Base.{
  Text, ◌≡◌, refl, sym, ap, ◌∙◌, Bool, true, false, not, Option, none, some, List, [], ◌∷◌, map,
  ◌==◌, all, text_eq, if◌then◌else◌, arith,
}
use sebenza.Events.{
  InboxEvent, InboxEventKind, RequestView, comment, request_opened, proposal, WorktreeKey,
  request_id_of, mask_kind, mask_event, redaction_targets, apply_redactions, redacted_body,
}
use sebenza.Events.Fold.{modify_first, new_view, apply_kind, fold_kind, fold_from, fold_requests}

-- A view without the three fields that show a body.
unfoldable pub lifecycle : RequestView → RequestView
lifecycle v = record v { body = []; proposal = none; proposal_hash = none }

mask_if : Bool → InboxEventKind → InboxEventKind
mask_if b k = if b then mask_kind k else k

lifecycle_idem :
    (views : List RequestView) → map lifecycle (map lifecycle views) ≡ map lifecycle views
unfolding lifecycle
lifecycle_idem [] = refl
lifecycle_idem (x ∷ views) = ap (λ r. lifecycle x ∷ r) (lifecycle_idem views)

lifecycle-modify_first :
    (r : Text) (f g : RequestView → RequestView) (views : List RequestView)
    → ((v : RequestView) → lifecycle (f v) ≡ lifecycle (g (lifecycle v)))
    → map lifecycle (modify_first (λ v. v.request_id == r) f views)
      ≡ map lifecycle (modify_first (λ v. v.request_id == r) g (map lifecycle views))
unfolding modify_first lifecycle
lifecycle-modify_first r f g [] same = refl
lifecycle-modify_first r f g (x ∷ views) same =
    ground (arith, lifecycle-modify_first r f g views same, same x, lifecycle_idem views)

all-lifecycle :
    (r : Text) (views : List RequestView)
    → all (λ v. not (v.request_id == r)) (map lifecycle views)
      ≡ all (λ v. not (v.request_id == r)) views
unfolding all lifecycle
all-lifecycle r [] = refl
all-lifecycle r (x ∷ views) = ground (arith, all-lifecycle r views)

abbrev is_opening : InboxEventKind → Bool
is_opening (request_opened _ _ _ _ _) = true
is_opening _ = false

mask_if-is_opening : (b : Bool) (k : InboxEventKind) → is_opening (mask_if b k) ≡ is_opening k
unfolding mask_if mask_kind
mask_if-is_opening false k = refl
mask_if-is_opening true (comment t b ws) = refl
mask_if-is_opening true _ = refl

mask_if-request_id_of :
    (b : Bool) (k : InboxEventKind) → request_id_of (mask_if b k) ≡ request_id_of k
unfolding mask_if mask_kind request_id_of
mask_if-request_id_of false k = refl
mask_if-request_id_of true (comment t b ws) = refl
mask_if-request_id_of true _ = refl

abbrev touch : Option Text → (RequestView → RequestView) → List RequestView → List RequestView
touch none f views = views
touch (some r) f views = modify_first (λ v. v.request_id == r) f views

module _ (sha1_hex : Text → Text) where
  lifecycle-apply_kind :
      (b : Bool) (v : RequestView) (k : InboxEventKind)
      → lifecycle (apply_kind sha1_hex v (mask_if b k))
        ≡ lifecycle (apply_kind sha1_hex (lifecycle v) k)
  unfolding lifecycle apply_kind mask_if mask_kind
  lifecycle-apply_kind false v (proposal r pid body rat ws) = ground arith
  lifecycle-apply_kind true v (proposal r pid body rat ws) = ground arith
  lifecycle-apply_kind false v (comment t b ws) = refl
  lifecycle-apply_kind true v (comment t b ws) = refl
  lifecycle-apply_kind false v _ = refl
  lifecycle-apply_kind true v _ = refl

  fold_kind-not_opening :
      (views : List RequestView) (ts : Text) (k : InboxEventKind)
      → is_opening k ≡ false
      → fold_kind sha1_hex views ts k ≡ touch (request_id_of k) (λ v. apply_kind sha1_hex v k) views
  unfolding fold_kind request_id_of
  fold_kind-not_opening views ts (request_opened r wt title body ws) h = cc
  fold_kind-not_opening views ts _ h = refl

  lifecycle-touch :
      (b : Bool) (o : Option Text) (views : List RequestView) (k : InboxEventKind)
      → map lifecycle (touch o (λ v. apply_kind sha1_hex v (mask_if b k)) views)
        ≡ map lifecycle (touch o (λ v. apply_kind sha1_hex v k) (map lifecycle views))
  lifecycle-touch b none views k = sym (lifecycle_idem views)
  lifecycle-touch b (some r) views k =
      lifecycle-modify_first r (λ v. apply_kind sha1_hex v (mask_if b k))
        (λ v. apply_kind sha1_hex v k) views (λ v. lifecycle-apply_kind b v k)

  lifecycle-other :
      (b : Bool) (views : List RequestView) (ts : Text) (k : InboxEventKind)
      → is_opening k ≡ false
      → map lifecycle (fold_kind sha1_hex views ts (mask_if b k))
        ≡ map lifecycle (fold_kind sha1_hex (map lifecycle views) ts k)
  lifecycle-other b views ts k h =
      rw
        (
          fold_kind-not_opening views ts (mask_if b k) (mask_if-is_opening b k ∙ h),
          fold_kind-not_opening (map lifecycle views) ts k h,
          mask_if-request_id_of b k,
        )
        (lifecycle-touch b (request_id_of k) views k)

  lifecycle-opening :
      (b : Bool) (views : List RequestView) (ts r : Text) (wt : WorktreeKey) (title body : Text)
      (ws : List Text)
      → map lifecycle (fold_kind sha1_hex views ts (mask_if b (request_opened r wt title body ws)))
        ≡ map lifecycle
            (fold_kind sha1_hex (map lifecycle views) ts (request_opened r wt title body ws))
  unfolding fold_kind mask_if mask_kind lifecycle
  lifecycle-opening false views ts r wt title body ws = ground (
    arith,
    all-lifecycle r views,
    lifecycle_idem views,
    map-append lifecycle views (new_view r wt title body ws ts ∷ []),
    map-append lifecycle (map lifecycle views) (new_view r wt title body ws ts ∷ []),
  )
  lifecycle-opening true views ts r wt title body ws = ground (
    arith,
    all-lifecycle r views,
    lifecycle_idem views,
    map-append lifecycle views (new_view r wt title redacted_body ws ts ∷ []),
    map-append lifecycle (map lifecycle views) (new_view r wt title body ws ts ∷ []),
  )

  -- What an event makes of a view does not depend on the bodies that the view shows.
  pub lifecycle-unmasked :
      (v : RequestView) (k : InboxEventKind)
      → lifecycle (apply_kind sha1_hex v k) ≡ lifecycle (apply_kind sha1_hex (lifecycle v) k)
  unfolding mask_if
  lifecycle-unmasked v k = lifecycle-apply_kind false v k

  lifecycle-fold_kind :
      (b : Bool) (views : List RequestView) (ts : Text) (k : InboxEventKind)
      → map lifecycle (fold_kind sha1_hex views ts (mask_if b k))
        ≡ map lifecycle (fold_kind sha1_hex (map lifecycle views) ts k)
  lifecycle-fold_kind b views ts (request_opened r wt title body ws) =
      lifecycle-opening b views ts r wt title body ws
  lifecycle-fold_kind b views ts (comment t body ws) =
      lifecycle-other b views ts (comment t body ws) refl
  lifecycle-fold_kind b views ts _ = lifecycle-other b views ts _ refl

  -- One event, masked or not, after views of one lifecycle.
  lifecycle-mask_event :
      (targets : List Text) (views views' : List RequestView) (e : InboxEvent)
      → map lifecycle views ≡ map lifecycle views'
      → map lifecycle
          (fold_kind sha1_hex views (mask_event targets e).ts (mask_event targets e).kind)
        ≡ map lifecycle (fold_kind sha1_hex views' e.ts e.kind)
  unfolding mask_event mask_if
  lifecycle-mask_event targets views views' e same = ground (
    arith,
    lifecycle-fold_kind true views e.ts e.kind,
    lifecycle-fold_kind false views e.ts e.kind,
    lifecycle-fold_kind false views' e.ts e.kind,
    ap (λ vs. map lifecycle (fold_kind sha1_hex vs e.ts e.kind)) same,
  )

  -- Two folds that start from views of one lifecycle, the first over a log with some bodies masked.
  lifecycle-fold_from :
      (targets : List Text) (events : List InboxEvent) (views views' : List RequestView)
      → map lifecycle views ≡ map lifecycle views'
      → map lifecycle (fold_from sha1_hex views (map (mask_event targets) events))
        ≡ map lifecycle (fold_from sha1_hex views' events)
  unfolding fold_from
  lifecycle-fold_from targets [] views views' same = same
  lifecycle-fold_from targets (e ∷ events) views views' same =
      lifecycle-fold_from targets events _ _ (lifecycle-mask_event targets views views' e same)

  -- For every log, the requests folded from the redacted log are those folded from the log itself, in
  -- the same order, and alike in every field but the body, the proposal and the proposal's hash:
  -- redaction never moves a request to another status.
  pub lifecycle-apply_redactions :
      (events : List InboxEvent)
      → map lifecycle (fold_requests sha1_hex (apply_redactions events))
        ≡ map lifecycle (fold_requests sha1_hex events)
  unfolding fold_requests apply_redactions
  lifecycle-apply_redactions events =
      lifecycle-fold_from (redaction_targets events) events [] [] refl
