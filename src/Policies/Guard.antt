-- ===== src/Policies/Guard.antt =====
-- crates/common/src/domain/policies.rs: who may call the inbox routes. Parsing of an IPv4 address is
-- the parameter `is_loopback_v4`.
pub mod Laws
use sebenza.Base.{
  ℕ, ◌-◌, Text, codes, Bool, true, false, not, ◌&&◌, ◌||◌, Option, none, some, List, [], ◌∷◌, ◌++◌,
  ◌==◌, text_eq, text_beq, nat_eq, map, any, all, contains, trim, is_empty, is_blank, leb, byte_len,
  before, strip_prefix, split_once, to_ascii_lowercase, is_ascii_lowercase, is_ascii_digit, keep_if,
  or_else, is_some_and, if◌then◌else◌,
}

pub data InboxGuardDenial : Type 0 where
  bad_token cross_origin : InboxGuardDenial

pub data InboxGuard : Type 0 where
  allow : InboxGuard
  deny : InboxGuardDenial → InboxGuard

unfoldable pub ascii_upper : ℕ → ℕ
ascii_upper c = if leb b'a' c && leb c b'z' then c - 32 else c

unfoldable pub is_mutating_method : Text → Bool
unfolding ascii_upper
is_mutating_method method =
    contains (codes "POST" ∷ codes "PUT" ∷ codes "PATCH" ∷ codes "DELETE" ∷ [])
      (map ascii_upper method)

unfoldable pub ends_authority : ℕ → Bool
ends_authority c = c == b'/' || c == b'?' || c == b'#'

unfoldable pub origin_of : Text → Option Text
unfolding ends_authority
origin_of url = elim (split_once (codes "://") url) [
  | none ↦ none
  | some (scheme, rest) ↦
      if is_empty scheme || is_empty rest
      then none
      else let authority = before ends_authority rest in
        if is_empty authority
        then none
        else some (to_ascii_lowercase scheme ++ (codes "://" ++ to_ascii_lowercase authority))
]

-- `o.and_then(origin_of)`
abbrev pub origin_in : Option Text → Option Text
origin_in none = none
origin_in (some url) = origin_of url

-- The last `match`: the origin that was claimed, against the server's own.
unfoldable pub is_same_origin : Option Text → Option Text → Bool
is_same_origin (some got) (some want) = got == want
is_same_origin (some got) none = false
is_same_origin none want = true

unfoldable pub origin_is_acceptable : Option Text → Option Text → Text → Bool
unfolding is_same_origin
origin_is_acceptable origin referer self_origin =
    is_same_origin (or_else (origin_in origin) (origin_in referer)) (origin_of self_origin)

-- The guard of the first arm of the match on the bearer token.
unfoldable pub is_good_token : Text → Option Text → Bool
is_good_token expected none = false
is_good_token expected (some token) = not (is_empty expected) && token == expected

unfoldable pub guard_inbox_request :
    Text → Option Text → Option Text → Option Text → Text → Text → InboxGuard
guard_inbox_request method bearer origin referer expected_token self_origin =
    if not (is_mutating_method method)
    then allow
    else if not (is_good_token expected_token bearer)
    then deny bad_token
    else if origin_is_acceptable origin referer self_origin
    then allow
    else deny cross_origin

unfoldable pub host_name : Text → Text
host_name host = elim (strip_prefix (codes "[") host) [
  | some rest ↦ before (λ c. c == b']') rest
  | none ↦ before (λ c. c == b':') host
]

module _ (is_loopback_v4 : Text → Bool) where
  -- The tests on the name of the host.
  unfoldable pub name_is_allowed : Text → List Text → Bool
  name_is_allowed name extra =
      name == codes "localhost"
      || name == codes "::1"
      || is_loopback_v4 name
      || any (λ h. host_name (to_ascii_lowercase h) == name) extra

  unfoldable pub host_is_allowed : Option Text → List Text → Bool
  host_is_allowed none extra = false
  host_is_allowed (some raw) extra =
      let host = trim raw in
      if is_empty host then false else name_is_allowed (host_name (to_ascii_lowercase host)) extra

unfoldable pub is_marker_char : ℕ → Bool
is_marker_char c = is_ascii_lowercase c || is_ascii_digit c || c == b'-'

unfoldable pub sanitize_caller_marker : Option Text → Option Text
unfolding is_marker_char
sanitize_caller_marker none = none
sanitize_caller_marker (some raw) =
    let marker = to_ascii_lowercase (trim raw) in
    if not (is_empty marker) && leb (byte_len marker) 32 && all is_marker_char marker
    then some marker
    else none
