-- ===== src/Policies/Guard/Laws.antt =====
-- What the guard of the inbox routes lets through.
use sebenza.Base.{
  Text, ◌≡◌, refl, ap, sym, ◌∙◌, true, false, Option, none, some, text_eq, text_beq_iff, is_empty,
  or_else, arith,
}
use sebenza.Policies.Guard.{
  allow, guard_inbox_request, is_mutating_method, is_good_token, origin_is_acceptable,
  is_same_origin, origin_of, origin_in,
}

is_good_token-some :
    (expected : Text) (bearer : Option Text)
    → is_good_token expected bearer ≡ true
    → (bearer ≡ some expected) × (is_empty expected ≡ false)
unfolding is_good_token
is_good_token-some expected none h = cc
is_good_token-some expected (some token) h = ground (arith, text_beq_iff token expected)

is_same_origin-some :
    (got : Text) (want : Option Text) → is_same_origin (some got) want ≡ true → want ≡ some got
unfolding is_same_origin
is_same_origin-some got none h = cc
is_same_origin-some got (some want) h = ground (arith, text_beq_iff got want)

-- A request to change something that the guard allows carried the server's token, which is not empty;
-- and if its `Origin` is an absolute URL, then that URL is of the server's own origin.
pub guard_inbox_request-allow :
    (method : Text) (bearer origin referer : Option Text) (expected self : Text)
    → is_mutating_method method ≡ true
    → guard_inbox_request method bearer origin referer expected self ≡ allow
    → (bearer ≡ some expected)
      × (is_empty expected ≡ false)
      × ((got : Text) → origin_in origin ≡ some got → origin_of self ≡ some got)
unfolding guard_inbox_request origin_is_acceptable
guard_inbox_request-allow method bearer origin referer expected self changes allowed =
    let good : is_good_token expected bearer ≡ true = ground (arith, allowed, changes) in
    let same : origin_is_acceptable origin referer self ≡ true = ground (arith, allowed, changes) in
    let (token, full) = is_good_token-some expected bearer good in
    (
      token,
      full,
      λ got claimed. is_same_origin-some got (origin_of self) (
          ap (λ o. is_same_origin (or_else o (origin_in referer)) (origin_of self)) (sym claimed)
          ∙ same),
    )

-- An `Origin` that is there but is not an absolute URL counts as if it were not there: with no
-- `Referer`, or one that is not an absolute URL either, the request is acceptable.
origin_is_acceptable-none :
    (url : Text) (referer : Option Text) (self : Text)
    → origin_of url ≡ none
    → origin_in referer ≡ none
    → origin_is_acceptable (some url) referer self ≡ true
unfolding origin_is_acceptable is_same_origin
origin_is_acceptable-none url referer self unreadable absent = rw (unreadable, absent) refl
