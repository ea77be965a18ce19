-- ===== src/World.antt =====
-- The state that the inbox service reads and writes, and its actions. Methods of `InboxService` and
-- `InboxStore` (crates/common/src/services/inbox_service.rs, crates/common/src/adapters/inbox_store.rs)
-- are actions: the state comes back after an error too, since what was written stays written.
pub mod Outcome
use sebenza.Base.{
  ◌≡◌, ◌⊎◌, inl, inr, refl, ℕ, suc, Text, Bool, true, false, Option, none, some, List, [], ◌∷◌,
  ◌++◌, if◌then◌else◌,
}
use sebenza.Draft.{InboxDraftView, Priority, PrioritySource, DraftStatus}
use sebenza.Events.{InboxEvent, WorktreeKey, AuthorKind}
use sebenza.Convert.{ConversionOutcome}
use sebenza.Limits.{InboxLimits, Hits}

pub data Result (E A : Type 0) : Type 0 where
  ok : A → Result E A
  err : E → Result E A

pub Result-cases :
    {E A : Type 0} (r : Result E A) → ((a : A) × (r ≡ ok a)) ⊎ ((e : E) × (r ≡ err e))
Result-cases (ok a) = inl (a, refl)
Result-cases (err e) = inr (e, refl)

-- An audit record: ids, actors and actions, and no text.
pub record AuditRecord : Type 0 where
  pub action : Text
  pub draft_id : Text
  pub event_id : Option Text
  pub request_id : Option Text
  pub actor : AuthorKind
  pub caller : Option Text
  pub thread : Option Text
  pub project : Option Text
  pub branch : Option Text
  pub from : Option Priority
  pub to : Option Priority
  pub source : Option PrioritySource
  pub refusal : Option Text
  pub attempt : Option ℕ
  pub edited : Option Bool

-- A system-agent session
pub record AgentSession : Type 0 where
  pub agent : Text
  pub model : Option Text
  pub session_id : Text
  pub turns : ℕ

-- What lies outside the repository or is chosen by its operator: the random ids and the clock, each
-- by the number of earlier draws, the SHA-1, the YAML of a conversion, the pane sink by the number
-- of earlier sends (`none` where no delivery is configured), and the limits. `scan_hits` is the
-- warn-only content scan.
pub record Env (V : Type 0) : Type 0 where
  pub ulid : ℕ → Text
  pub now_rfc3339 : ℕ → Text
  pub instant : ℕ → ℕ
  pub sha1_hex : Text → Text
  pub scan_hits : Text → List Text
  pub from_value : V → Option ConversionOutcome
  pub to_value : ConversionOutcome → Option V
  pub pane : Option (ℕ → WorktreeKey → Text → Result Text Unit)
  pub observed : Bool
  pub limits : InboxLimits

-- The drafts and event logs are the files of the inbox directory, by id; `sends` and `notified` are
-- what the pane sink and the request observer were told, newest last.
pub record World (V : Type 0) : Type 0 where
  pub drafts : List (Text × InboxDraftView V)
  pub logs : List (Text × List InboxEvent)
  pub sessions : List (Text × AgentSession)
  pub ids_drawn : ℕ
  pub clock_reads : ℕ
  pub comment_hits : Hits
  pub request_hits : Hits
  pub audits : List AuditRecord
  pub sends : List (WorktreeKey × Text)
  pub notified : List (Text × Text)

abbrev pub M : Type 0 → Type 0 → Type 0 → Type 0
M V E A = World V → Result E A × World V

module _ {V E A : Type 0} where
  abbrev pub pure : A → M V E A
  pure a w = (ok a, w)

  abbrev pub raise : E → M V E A
  raise e w = (err e, w)

  abbrev pub gets : (World V → A) → M V E A
  gets f w = (ok (f w), w)

  -- `ok_or`
  unfoldable pub or_raise : Option A → E → M V E A
  or_raise none e = raise e
  or_raise (some a) e = pure a

module _ {V E : Type 0} where
  abbrev pub modify : (World V → World V) → M V E Unit
  modify f w = (ok tt, f w)

  -- `if test { return Err(e) }`
  unfoldable pub refuse_if : Bool → E → M V E Unit
  refuse_if b e w = (if b then err e else ok tt, w)

infixl 5 ◌>>=◌ ◌>>◌
unfoldable pub ◌>>=◌ : {V E A B : Type 0} → M V E A → (A → M V E B) → M V E B
◌>>=◌ m f w = let (r, w') = m w in elim r [ ok a ↦ f a w' | err e ↦ raise e w' ]

abbrev pub ◌>>◌ : {V E A B : Type 0} → M V E A → M V E B → M V E B
m >> k = m >>= λ _. k

-- `?` from one error type to another
unfoldable pub map_err : {V E F A : Type 0} → (E → F) → M V E A → M V F A
map_err g m w = let (r, w') = m w in elim r [ ok a ↦ (ok a, w') | err e ↦ (err (g e), w') ]

module _ {V E : Type 0} (env : Env V) where
  -- `random_ulid()`
  abbrev pub fresh_ulid : M V E Text
  fresh_ulid w = (ok (env.ulid w.ids_drawn), record w { ids_drawn = suc w.ids_drawn })

  -- `now_rfc3339()`
  abbrev pub now : M V E Text
  now w = (ok (env.now_rfc3339 w.clock_reads), record w { clock_reads = suc w.clock_reads })

  -- `Instant::now()`
  abbrev pub instant_now : M V E ℕ
  instant_now w = (ok (env.instant w.clock_reads), record w { clock_reads = suc w.clock_reads })

-- `AuditSink::record`
abbrev pub record_audit : {V E : Type 0} → AuditRecord → M V E Unit
record_audit r w = (ok tt, record w { audits = w.audits ++ r ∷ [] })
