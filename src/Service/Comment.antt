-- ===== src/Service/Comment.antt =====
-- `add_comment` of crates/common/src/services/inbox_service.rs.
use sebenza.Base.{
  ◌≤◌, Text, ◌≡◌, refl, ap, ◌∙◌, true, false, Bool, Option, none, some, List, [], lookup, arith,
  contains, byte_len, is_blank,
}
use sebenza.Draft.{InboxDraft}
use sebenza.Events.{InboxEvent, Thread, WorktreeKey, comment, key_eq, request_id_of}
use sebenza.Events.Fold.{fold_kind, fold_from, fold_requests}
use sebenza.World.{World, Env, M, ◌>>=◌}
use sebenza.World.Outcome.{Outcome, Outcome-bind, Outcome-refuse_if}
use sebenza.Service.{InboxServiceError, worktree_keys, rate_key}
use sebenza.Store.{EventAuthor}
use sebenza.Service.Requests.{
  add_comment, limited_by, comment_allowed, known_worktree, thread_worktree,
}
use sebenza.Service.Reads.{log_of, Readable, appended, Outcome-parsed_draft}
use sebenza.Service.Effects.{
  SameStore, SameStore-refl, Wrote, log_of-insert, Outcome-write, insert-log_of,
}
use sebenza.Service.Open.{fold_from-append}

module _ {V : Type 0} (env : Env V) (w : World V) where
  Outcome-comment_allowed :
      {B : Type 0} (key : Option Text) (f : Unit {0} → M V InboxServiceError B)
      (Q : B → World V → Type 0) (R : InboxServiceError → World V → Type 0)
      → ((e : InboxServiceError) (w1 : World V) → SameStore w w1 → R e w1)
      → ((w1 : World V) → SameStore w w1 → Outcome (f tt w1) Q R)
      → Outcome ((limited_by env (comment_allowed env) key >>= f) w) Q R
  unfolding comment_allowed
  Outcome-comment_allowed none f Q R fails works =
      Outcome-bind _ f w Q R (works w (SameStore-refl w))
  Outcome-comment_allowed (some key) f Q R fails works =
      Outcome-bind (limited_by env (comment_allowed env) (some key)) f w Q R (
        Outcome-bind _ _ w _ _ (
          Outcome-bind _ _ w _ _ (
            Outcome-bind _ _ _ _ _ (
              Outcome-bind _ _ _ _ _ (
                Outcome-refuse_if _ _ _ _ _
                  (λ _. fails _ _ (record { drafts = refl; logs = refl; sends = refl }))
                  (λ _. works _ (record { drafts = refl; logs = refl; sends = refl })))))))

  -- The thread is the item's own, or that of a worktree that it was converted into.
  abbrev pub is_known : InboxDraft V → Option WorktreeKey → Bool
  is_known draft none = true
  is_known draft (some key) = contains (worktree_keys env draft) key

  Outcome-known_worktree :
      (draft : InboxDraft V) (key : Option WorktreeKey) (Q : Unit {0} → World V → Type 0)
      (R : InboxServiceError → World V → Type 0)
      → ((e : InboxServiceError) → R e w)
      → (is_known draft key ≡ true → Q tt w)
      → Outcome (known_worktree env draft key w) Q R
  unfolding known_worktree
  Outcome-known_worktree draft none Q R fails works = works refl
  Outcome-known_worktree draft (some key) Q R fails works =
      Outcome-refuse_if w Q R _ _ (λ _. fails _) (λ h. works (ground (arith, h)))

module _ {V : Type 0} (env : Env V) (id : Text) (thread : Thread) (body : Text) (w : World V) where
  -- A comment that was taken, and what it leaves of the requests.
  pub record Commented (e : InboxEvent) (w' : World V) : Type 0 where
    pub readable : Readable id w
    pub known : is_known env w readable.draft (thread_worktree env thread) ≡ true
    pub says_something : is_blank body ≡ false
    pub short : byte_len body ≤ env.limits.max_body_bytes
    pub kind_is : e.kind ≡ comment thread body (env.scan_hits body)
    pub wrote : Wrote id e w w'
    pub requests :
        fold_requests env.sha1_hex (log_of id w') ≡ fold_requests env.sha1_hex (log_of id w)

  fold_requests-Wrote :
      (e : InboxEvent) (w' : World V) (ws : List Text)
      → e.kind ≡ comment thread body ws
      → Wrote id e w w'
      → fold_requests env.sha1_hex (log_of id w') ≡ fold_requests env.sha1_hex (log_of id w)
  unfolding fold_requests fold_kind request_id_of
  fold_requests-Wrote e w' ws kind wrote =
      ap (fold_from env.sha1_hex []) (log_of-insert id w w' _ wrote.logs)
      ∙ fold_from-append env.sha1_hex [] (log_of id w) e
      ∙ ap (fold_kind env.sha1_hex (fold_from env.sha1_hex [] (log_of id w)) e.ts) kind

  -- A comment either fails, with the drafts, the logs and the panes as they were, or it is `Commented`:
  -- its body is not blank and within the limit, its thread is the item's own or that of a worktree
  -- that the item was converted into, it is one event, and no request of the item changes by it.
  pub add_comment-Commented :
      (author : EventAuthor)
      → Outcome (add_comment env id author thread body w) Commented (λ _ w'. SameStore w w')
  unfolding add_comment appended
  add_comment-Commented author =
      let same = SameStore-refl w in
      Outcome-bind _ _ w _ _ (
        Outcome-refuse_if w _ _ _ _ (λ _. same)
          λ some_text. Outcome-bind _ _ w _ _ (
            Outcome-refuse_if w _ _ _ _ (λ _. same)
              λ short. Outcome-bind _ _ w _ _ (
                Outcome-parsed_draft id w _ _ (λ _. same)
                  λ r. Outcome-bind _ _ w _ _ (
                    Outcome-known_worktree env w _ _ _ _ (λ _. same)
                      λ known.
                        Outcome-comment_allowed env w (rate_key author (thread_worktree env thread))
                          _ _ _ (λ _ _ s. s)
                          λ w1 s.
                            Outcome-write env id w1 _ _ _ _ _ _ _
                              (record {
                                valid = r.valid;
                                draft = r.draft;
                                found = ap (lookup id) s.drafts ∙ r.found;
                              })
                              λ w2 step.
                                let wrote : Wrote id _ w w2 = record {
                                  drafts = step.drafts ∙ s.drafts;
                                  logs = step.logs ∙ insert-log_of id _ w w1 s.logs;
                                  sends = step.sends ∙ s.sends;
                                } in
                                record {
                                  readable = r;
                                  known = known;
                                  says_something = some_text;
                                  short = ground (arith, short);
                                  kind_is = refl;
                                  wrote = wrote;
                                  requests = fold_requests-Wrote _ w2 _ refl wrote;
                                }))))
