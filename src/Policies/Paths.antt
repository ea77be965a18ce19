-- ===== src/Policies/Paths.antt =====
-- The small checks of crates/common/src/domain/policies.rs on names, hosts and paths. A path is read
-- as on Unix.
use sebenza.Base.{
  ℕ, Text, codes, Bool, false, not, ◌&&◌, ◌||◌, Option, List, [], ◌∷◌, map, ◌==◌, nat_eq, text_eq,
  if◌then◌else◌, unwrap_or, is_some, all, any, filter, contains, is_empty, is_blank, trim,
  is_ascii_alphanumeric, is_ascii_alphabetic, to_ascii_lowercase, split_at, is_control,
  strip_prefix, to_ascii_lowercase, is_control, is_ascii_alphabetic, strip_prefix, split_at,
  is_ascii_alphanumeric,
}

abbrev pub is_key_char : ℕ → Bool
is_key_char c = is_ascii_alphanumeric c || c == b'_'

unfoldable pub is_valid_env_key : Text → Bool
is_valid_env_key [] = false
is_valid_env_key (c ∷ chars) = (is_ascii_alphabetic c || c == b'_') && all is_key_char chars

-- The variable's value is the argument.
unfoldable pub allowed_hosts_from_env : Option Text → List Text
allowed_hosts_from_env value =
    filter (λ h. not (is_empty h))
      (map (λ h. to_ascii_lowercase (trim h)) (split_at (λ c. c == b',') (unwrap_or value [])))

-- `Path::is_absolute`
abbrev pub is_absolute : Text → Bool
is_absolute path = is_some (strip_prefix (codes "/") path)

-- `Path::components`, asked for `..`
abbrev pub has_parent_dir : Text → Bool
has_parent_dir path = contains (split_at (λ c. c == b'/') path) (codes "..")

unfoldable pub is_safe_project_path : Text → Bool
is_safe_project_path path =
    if is_blank path
    then false
    else if any is_control path
    then false
    else if not (is_absolute path)
    then false
    else not (has_parent_dir path)
