-- ===== src/Service/Open.antt =====
-- `open_request` of crates/common/src/services/inbox_service.rs: what a new request must meet.
use sebenza.Store.{EventAuthor}
use sebenza.Base.{
  ◌<◌, ℕ, append_assoc, append-nil, sym, unwrap_or, ◌≤◌, ◌+◌, Text, ◌≡◌, refl, ap, ◌∙◌, true, false,
  Bool, Option, none, some, List, [], ◌∷◌, ◌++◌, lookup, arith, length, filter, filter-append,
  length-append, contains, trim, byte_len, is_empty, is_blank, if◌then◌else◌, text_eq,
}
use sebenza.Events.{
  InboxEventKind, comment, priority_changed, redacted, unknown, request_id_of, InboxEvent,
  RequestView, WorktreeKey, request_opened, key_eq,
}
use sebenza.Events.Fold.{modify_first, fold_kind, fold_from, fold_requests}
use sebenza.World.{◌>>=◌, World, Env, M}
use sebenza.World.Outcome.{Outcome-mono, Outcome, Outcome-bind, Outcome-refuse_if, Outcome-map_err}
use sebenza.Service.{rate_key, InboxServiceError, store, worktree_keys}
use sebenza.Service.Requests.{
  admit_request, take_request, open_request, open_count, limited_by, request_allowed, is_unresolved,
}
use sebenza.Service.Reads.{log_of, Readable, appended, Outcome-parsed_draft, Outcome-read_events}
use sebenza.Service.Effects.{SameStore, SameStore-refl, Wrote, log_of-insert, Outcome-write}

log_of-same :
    {V : Type 0} (id : Text) (w w1 : World V) → w1.logs ≡ w.logs → log_of id w1 ≡ log_of id w
log_of-same id w w1 same = ap (λ logs. unwrap_or (lookup id logs) []) same

-- One more element at most is one more that passes the test at most.
length-filter :
    {A : Type 0} (p : A → Bool) (b : Bool) (xs : List A) (x : A)
    → length (filter p (if b then xs ++ x ∷ [] else xs)) ≤ length (filter p xs) + 1
unfolding filter
length-filter p true xs x =
    ground (arith, filter-append p xs (x ∷ []), length-append (filter p xs) (filter p (x ∷ [])))
length-filter p false xs x = omega arith

-- A change of one element is one more that passes the test at most.
length-modify_first :
    {A : Type 0} (p q : A → Bool) (f : A → A) (xs : List A)
    → length (filter p (modify_first q f xs)) ≤ length (filter p xs) + 1
unfolding filter modify_first
length-modify_first p q f [] = omega arith
length-modify_first p q f (x ∷ xs) = ground (arith, length-modify_first p q f xs)

module _ (sha1_hex : Text → Text) where
  pub fold_from-append :
      (views : List RequestView) (log : List InboxEvent) (e : InboxEvent)
      → fold_from sha1_hex views (log ++ e ∷ [])
        ≡ fold_kind sha1_hex (fold_from sha1_hex views log) e.ts e.kind
  unfolding fold_from
  fold_from-append views [] e = refl
  fold_from-append views (x ∷ log) e = fold_from-append (fold_kind sha1_hex views x.ts x.kind) log e

  -- No event adds more than one request that is not resolved.
  kind-count :
      (views : List RequestView) (ts : Text) (k : InboxEventKind)
      → length (filter is_unresolved (fold_kind sha1_hex views ts k))
        ≤ length (filter is_unresolved views) + 1
  unfolding fold_kind request_id_of
  kind-count views ts (request_opened rid key title body ws) = length-filter is_unresolved _ views _
  kind-count views ts (comment thread body ws) = omega arith
  kind-count views ts (priority_changed from to source) = omega arith
  kind-count views ts (redacted target) = omega arith
  kind-count views ts unknown = omega arith
  kind-count views ts _ = length-modify_first is_unresolved _ _ views

  log-count :
      (views : List RequestView) (log : List InboxEvent)
      → length (filter is_unresolved (fold_from sha1_hex views log))
        ≤ length (filter is_unresolved views) + length log
  unfolding fold_from
  log-count views [] = omega arith
  log-count views (e ∷ log) =
      omega
        (arith, log-count (fold_kind sha1_hex views e.ts e.kind) log, kind-count views e.ts e.kind)

  pub fold_from-split :
      (views : List RequestView) (log others : List InboxEvent)
      → fold_from sha1_hex views (log ++ others)
        ≡ fold_from sha1_hex (fold_from sha1_hex views log) others
  unfolding fold_from
  fold_from-split views [] others = refl
  fold_from-split views (x ∷ log) others =
      fold_from-split (fold_kind sha1_hex views x.ts x.kind) log others

module _ {ℓ} {V : Type 0} (env : Env V) (w : World V) (Q : Unit {0} → World V → Type ℓ)
    (R : InboxServiceError → World V → Type ℓ) where
  Outcome-limited_by :
      (key : Option Text)
      → ((e : InboxServiceError) (w1 : World V) → SameStore w w1 → R e w1)
      → ((w1 : World V) → SameStore w w1 → Q tt w1)
      → Outcome (limited_by env (request_allowed env) key w) Q R
  unfolding request_allowed
  Outcome-limited_by none fails works = works w (SameStore-refl w)
  Outcome-limited_by (some key) fails works = Outcome-bind _ _ w Q R (
      Outcome-bind _ _ w _ _ (
        Outcome-bind _ _ _ _ _ (
          Outcome-bind _ _ _ _ _ (
            Outcome-refuse_if _ _ _ _ _
              (λ _. fails _ _ (record { drafts = refl; logs = refl; sends = refl }))
              (λ _. works _ (record { drafts = refl; logs = refl; sends = refl }))))))

Outcome-limited_bind :
    {V B : Type 0} (env : Env V) (w : World V) (key : Option Text)
    (f : Unit {0} → M V InboxServiceError B) (Q : B → World V → Type 0)
    (R : InboxServiceError → World V → Type 0)
    → ((e : InboxServiceError) (w1 : World V) → SameStore w w1 → R e w1)
    → ((w1 : World V) → SameStore w w1 → Outcome (f tt w1) Q R)
    → Outcome ((limited_by env (request_allowed env) key >>= f) w) Q R
Outcome-limited_bind env w key f Q R fails works =
    Outcome-bind (limited_by env (request_allowed env) key) f w Q R
      (Outcome-limited_by env w (λ u w1. Outcome (f u w1) Q R) R key fails works)

module _ {V : Type 0} (env : Env V) (id : Text) (worktree : WorktreeKey) (title body : Text)
    (w : World V) where
  -- A request that passed the checks, by the item as it was read: it comes from a worktree that the item was
  -- converted into, its title and body are not blank and within the limits, and there is room for it.
  pub record Admitted : Type 0 where
    pub readable : Readable id w
    pub known : contains (worktree_keys env readable.draft) worktree ≡ true
    pub titled : is_empty title ≡ false
    pub written_ : is_blank body ≡ false
    pub short_title : length title ≤ env.limits.max_title_chars
    pub short_body : byte_len body ≤ env.limits.max_body_bytes
    pub room : open_count env (log_of id w) < env.limits.max_open_requests

  -- A request that was taken as one event, in the world of the append, into which others may have written so
  -- many events since the checks: the requests of the item that are not resolved are, with this one, no more
  -- than the limit and the events of the others.
  pub record Opened (others : ℕ) (between : World V) (e : InboxEvent) (w' : World V) : Type 0 where
    pub admitted : Admitted
    pub rid : Text
    pub kind_is :
        e.kind ≡ request_opened rid worktree title body (env.scan_hits (title ++ 0x0a ∷ body))
    pub wrote : Wrote id e between w'
    pub bounded : open_count env (log_of id w') ≤ env.limits.max_open_requests + others

  open_count-split :
      (log others : List InboxEvent)
      → open_count env (log ++ others) ≤ open_count env log + length others
  unfolding open_count fold_requests
  open_count-split log others =
      rw (fold_from-split env.sha1_hex [] log others)
        (log-count env.sha1_hex (fold_from env.sha1_hex [] log) others)

  taken :
      (others : List InboxEvent) (between w' : World V) (e : InboxEvent) (rid : Text)
      → Admitted
      → log_of id between ≡ log_of id w ++ others
      → e.kind ≡ request_opened rid worktree title body (env.scan_hits (title ++ 0x0a ∷ body))
      → Wrote id e between w'
      → Opened (length others) between e w'
  taken others between w' e rid admitted grown kind wrote =
      let counts = open_count-split (log_of id w) (others ++ e ∷ []) in
      let logs : log_of id w' ≡ log_of id w ++ (others ++ e ∷ []) =
        log_of-insert id between w' _ wrote.logs
        ∙ ap (λ l. l ++ e ∷ []) grown
        ∙ append_assoc (log_of id w) others (e ∷ []) in
      record {
        admitted = admitted;
        rid = rid;
        kind_is = kind;
        wrote = wrote;
        bounded = rw logs (omega (arith, counts, admitted.room, length-append others (e ∷ [])));
      }

  -- The observer is told after the request was taken, and changes none of what was.
  observed-Wrote :
      (b : Bool) (between : World V) (e : InboxEvent) (w' : World V) (told : List (Text × Text))
      → Wrote id e between w'
      → Wrote id e between (if b then record w' { notified = told } else w')
  observed-Wrote false between e w' told o = o
  observed-Wrote true between e w' told o = record {
    drafts = o.drafts;
    logs = o.logs;
    sends = o.sends;
  }

  Outcome-take_request :
      (author : EventAuthor) (others : List InboxEvent) (between : World V)
      (R : InboxServiceError → World V → Type 0)
      → Admitted
      → Readable id between
      → log_of id between ≡ log_of id w ++ others
      → Outcome
          (take_request env id author worktree title body between)
          (Opened (length others) between)
          R
  unfolding take_request appended
  Outcome-take_request author others between R admitted r grown = Outcome-bind _ _ between _ _ (
      Outcome-write env id _ _ _ _ _ _ _ _
        (record { valid = r.valid; draft = r.draft; found = r.found })
        λ w2 wrote. Outcome-bind _ _ w2 _ _ (
          taken others between _ _ _ admitted grown refl (
            observed-Wrote env.observed between _ w2 _
              (record { drafts = wrote.drafts; logs = wrote.logs; sends = wrote.sends }))))

  Outcome-admit_request :
      (author : EventAuthor)
      → Outcome
          (admit_request env id author worktree title body w)
          (λ _ w1. Admitted × SameStore w w1)
          (λ _ w1. SameStore w w1)
  unfolding admit_request appended
  Outcome-admit_request author =
      let same = SameStore-refl w in
      Outcome-bind _ _ w _ _ (
        Outcome-refuse_if w _ _ _ _ (λ _. same)
          λ some_text. Outcome-bind _ _ w _ _ (
            Outcome-refuse_if w _ _ _ _ (λ _. same)
              λ short_title. Outcome-bind _ _ w _ _ (
                Outcome-refuse_if w _ _ _ _ (λ _. same)
                  λ short_body. Outcome-bind _ _ w _ _ (
                    Outcome-parsed_draft id w _ _ (λ _. same)
                      λ r. Outcome-bind _ _ w _ _ (
                        Outcome-refuse_if w _ _ _ _ (λ _. same)
                          λ known. Outcome-bind _ _ w _ _ (
                            Outcome-map_err store _ w _ _ (
                              Outcome-read_events id w _ _ r (
                                Outcome-bind _ _ w _ _ (
                                  Outcome-refuse_if w _ _ _ _ (λ _. same)
                                    λ room.
                                      Outcome-limited_by env w _ _ (rate_key author (some worktree))
                                        (λ _ _ s. s)
                                        (λ w1 s. (
                                          record {
                                            readable = r;
                                            known = ground (arith, known);
                                            titled = ground (arith, some_text);
                                            written_ = ground (arith, some_text);
                                            short_title = ground (arith, short_title);
                                            short_body = ground (arith, short_body);
                                            room = ground (arith, room);
                                          },
                                          s,
                                        )))))))))))

module _ {V : Type 0} (env : Env V) (id : Text) (worktree : WorktreeKey) (raw_title body : Text)
    (w : World V) where
  -- A request that is refused leaves the drafts, the logs and the panes as they were. One that passes the checks
  -- comes from a worktree that the item was converted into, its trimmed title and its body are not blank and within
  -- the limits, and by the log as it was read there is room for it. It is then taken as one event, whatever others
  -- appended to the log since it was read; after it, the item has no more unresolved requests than the limit
  -- and the number of events that they appended. Where nothing comes between, no more than the limit.
  pub open_request-Opened :
      (author : EventAuthor) (others : List InboxEvent) (between : World V)
      → Readable id between
      → log_of id between ≡ log_of id w ++ others
      → Outcome
          (open_request env id author worktree raw_title body w)
          (λ e w'.
            (w1 : World V) × SameStore w w1
            × Opened env id worktree (trim raw_title) body w 0 w1 e w')
          (λ _ w'. SameStore w w')
        × Outcome
            (admit_request env id author worktree (trim raw_title) body w)
            (λ _ _.
              Outcome
                (take_request env id author worktree (trim raw_title) body between)
                (Opened env id worktree (trim raw_title) body w (length others) between)
                (λ _ _. ⊥))
            (λ _ w'. SameStore w w')
  unfolding open_request
  open_request-Opened author others between r grown =
      let title = trim raw_title in
      let admits = Outcome-admit_request env id worktree title body w author in
      (
        Outcome-bind _ _ w _ _ (
            Outcome-mono (admit_request env id author worktree title body w) _ _ _ _
              (λ _ w1 p.
                Outcome-mono (take_request env id author worktree title body w1) _ _
                  (λ _ w'. SameStore w w') (λ _ w'. SameStore w w')
                  (λ e w' opened. (w1, p.1, opened)) (λ _ _ s. s)
                  (Outcome-take_request env id worktree title body w author [] w1 _ p.0
                    (record {
                      valid = p.0.readable.valid;
                      draft = p.0.readable.draft;
                      found = ap (lookup id) p.1.drafts ∙ p.0.readable.found;
                    })
                    (log_of-same id w w1 p.1.logs ∙ sym (append-nil (log_of id w)))))
              (λ _ _ s. s) admits),
        Outcome-mono (admit_request env id author worktree title body w) _ _ _ _
            (λ _ _ p.
              Outcome-take_request env id worktree title body w author others between _ p.0 r grown)
            (λ _ _ s. s) admits,
      )
