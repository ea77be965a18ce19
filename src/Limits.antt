-- ===== src/Limits.antt =====
-- crates/common/src/services/inbox_limits.rs: the caps on inbox ingress and the sliding-window rate
-- limiter. An `Instant` is a number of nanoseconds; the mutex is one call at a time.
pub mod Window
use sebenza.Base.{
  ℕ, ◌-◌, ◌*◌, Text, Bool, true, false, Option, none, some, List, [], ◌∷◌, ◌++◌, length, drop_while,
  lookup, insert, unwrap_or, leb, if◌then◌else◌,
}

abbrev pub max_body_bytes : ℕ
max_body_bytes = 16 * 1024

abbrev pub max_title_chars : ℕ
max_title_chars = 200

abbrev pub max_ingress_bytes : ℕ
max_ingress_bytes = 64 * 1024

abbrev pub max_open_requests : ℕ
max_open_requests = 20

pub record RateLimit : Type 0 where
  pub max : ℕ
  pub window : ℕ

pub record InboxLimits : Type 0 where
  pub max_body_bytes : ℕ
  pub max_title_chars : ℕ
  pub max_open_requests : ℕ
  pub comments : RateLimit
  pub requests : RateLimit

-- `Duration::from_secs`, in nanoseconds
abbrev pub from_secs : ℕ → ℕ
from_secs s = s * 1000000000

unfoldable pub default_limits : InboxLimits
default_limits = record {
  max_body_bytes = max_body_bytes;
  max_title_chars = max_title_chars;
  max_open_requests = max_open_requests;
  comments = record { max = 30; window = from_secs 60 };
  requests = record { max = 10; window = from_secs 60 };
}

-- A limiter's map: the recent hits of each caller, oldest first.
abbrev pub Hits : Type 0
Hits = List (Text × List ℕ)

-- `now.saturating_duration_since(at) >= window`
abbrev pub is_old : ℕ → ℕ → ℕ → Bool
is_old window now at = leb window (now - at)

-- The loop that pops the hits that have left the window.
unfoldable pub evict : ℕ → ℕ → List ℕ → List ℕ
evict window now recent = drop_while (is_old window now) recent

-- A hit on one caller's queue: whether it is allowed, and the queue after it.
unfoldable pub hit : RateLimit → ℕ → List ℕ → Bool × List ℕ
hit limit now recent =
    let kept = evict limit.window now recent in
    if leb limit.max (length kept) then (false, kept) else (true, kept ++ now ∷ [])

-- `RateLimiter::allow_at`
unfoldable pub allow_at : RateLimit → Text → ℕ → Hits → Bool × Hits
allow_at limit key now hits =
    let (allowed, recent) = hit limit now (unwrap_or (lookup key hits) []) in
    (allowed, insert key recent hits)
