-- ===== src/Tests/Policies.antt =====
-- Two worktrees with ports, requests with and without an origin, and names of branches and projects.
use sebenza.Base.{
  digits_from, to_decimal, is_ascii_alphabetic, is_ascii_alphanumeric, drop_while, rev,
  trim_end_matches, trim_matches, strip_prefix, is_ascii_digit, before, split_once,
  is_ascii_lowercase, after_last, ascii_lower, pos, ℕ, zero, suc, ◌+◌, ◌-◌, ◌*◌, ◌/◌, ◌%◌, ◌^◌, ◌≤◌,
  ◌<◌, max, Text, codes, ◌≡◌, ◌≢◌, refl, sym, ap, ◌∙◌, subst, ◌↔◌, ◌⊎◌, inl, inr, Bool, true, false,
  not, ◌&&◌, ◌||◌, Option, none, some, List, [], ◌∷◌, ◌++◌, map, append-nil, append_assoc, arith,
  Eq, ◌==◌, nat_eq, text_eq, text_beq, text_beq_iff, text_beq_refl, nat_beq_iff, ltb, leb,
  if◌then◌else◌, unwrap_or, is_some, or_else, is_some_and, keep_if, all, any, find, filter,
  filter_map, find_map, contains, length, take, lookup, insert, remove, is_empty, is_blank, trim,
  Bool-cases, Option-cases, All, to_ascii_lowercase,
}
use sebenza.Worktree.{WorktreeMeta, ServiceSpec}
use sebenza.Policies.Ports.{allocate_service_ports, reference_slot}
use sebenza.Policies.Ports.Free.{lacks_port, allocate_service_ports-free}
use sebenza.Policies.Guard.{
  allow, guard_inbox_request, origin_is_acceptable, is_mutating_method, ascii_upper, is_good_token,
  is_same_origin, origin_of, origin_in, ends_authority,
}
use sebenza.Policies.Guard.Laws.{guard_inbox_request-allow}
use sebenza.Policies.Prefix.{
  derive_project_prefix, reserved_project_prefixes, choose_prefix, free_candidate, prefix_candidate,
  sanitize_project_prefix, slug_from, project_basename,
}
use sebenza.Policies.Prefix.Free.{derive_project_prefix-free}
use sebenza.Policies.Prefix.Shape.{is_lowered}
use sebenza.Policies.Branch.{sanitize_branch_name}
use sebenza.Policies.Branch.Clean.{IsClean, sanitize_branch_name-IsClean}

abbrev web : ServiceSpec
web = record {
  name = codes "web";
  port_env = codes "PORT";
  port_start = some 3000;
  port_step = some 10;
  url_template = none;
}

abbrev worktree_at : ℕ → WorktreeMeta
worktree_at port = record {
  schema_version = pos 1;
  worktree_id = codes "w";
  branch = codes "b";
  label = none;
  base_branch = none;
  created_at = [];
  profile = [];
  agent = [];
  runtime = [];
  startup_env_values = [];
  allocated_ports = (codes "PORT", port) ∷ [];
  source = none;
  oneshot = none;
  conversation = none;
  agent_terminal_stale = none;
  tabs = none;
  active_tab_id = none;
  fork_counter = none;
}

abbrev worktrees : List WorktreeMeta
worktrees = worktree_at 3010 ∷ worktree_at 3030 ∷ []

-- Slot 2 is free.
third_port : allocate_service_ports worktrees (web ∷ []) ≡ (codes "PORT", 3020) ∷ []
unfolding allocate_service_ports sebenza.Policies.Ports.allocate_from
    sebenza.Policies.Ports.assign_ports sebenza.Policies.Ports.free_slot
    sebenza.Policies.Ports.occupied_slots sebenza.Policies.Ports.slot_of
    sebenza.Policies.Ports.service_port filter filter_map contains sebenza.Base.first_free lookup
    insert text_beq
third_port = refl

allocate_service_ports-free_example :
    let port = 3000 + reference_slot worktrees web * 10 in
    (lookup (codes "PORT") (allocate_service_ports worktrees (web ∷ [])) ≡ some port)
    × (all (lacks_port (codes "PORT") port) worktrees ≡ true)
allocate_service_ports-free_example =
    allocate_service_ports-free worktrees (web ∷ []) web [] (unfold filter in refl)
      (unfold any in refl) (omega arith) (omega arith) (omega arith)

abbrev token : Text
token = codes "t"

abbrev own : Text
own = codes "http://127.0.0.1:5111"

own_request : guard_inbox_request (codes "POST") (some token) (some own) none token own ≡ allow
unfolding guard_inbox_request is_mutating_method ascii_upper contains text_beq is_good_token
    is_empty origin_is_acceptable is_same_origin origin_of ends_authority split_once strip_prefix
    before to_ascii_lowercase ascii_lower
own_request = refl

guard_inbox_request-allow_example :
    (some token ≡ some token)
    × (is_empty token ≡ false)
    × ((got : Text) → origin_in (some own) ≡ some got → origin_of own ≡ some got)
guard_inbox_request-allow_example =
    guard_inbox_request-allow (codes "POST") (some token) (some own) none token own
      (unfold is_mutating_method ascii_upper contains text_beq in refl) own_request

sanitize_branch_name-IsClean_example :
    IsClean (sanitize_branch_name to_ascii_lowercase (codes "Feature  //x..lock"))
sanitize_branch_name-IsClean_example =
    sanitize_branch_name-IsClean to_ascii_lowercase (codes "Feature  //x..lock")

derive_project_prefix-free_example :
    let prefix = derive_project_prefix to_ascii_lowercase (codes "0a") (codes "/home/API/") [] in
    (contains {A = Text} [] prefix ≡ false) × (contains reserved_project_prefixes prefix ≡ false)
derive_project_prefix-free_example =
    derive_project_prefix-free to_ascii_lowercase (codes "0a") (codes "/home/API/") [] (omega arith)

to_ascii_lowercase-lowered : (s : Text) → all is_lowered (to_ascii_lowercase s) ≡ true
unfolding all to_ascii_lowercase ascii_lower
to_ascii_lowercase-lowered [] = refl
to_ascii_lowercase-lowered (c ∷ s) = ground (arith, to_ascii_lowercase-lowered s)

second_api : derive_project_prefix to_ascii_lowercase [] (codes "/home/API/") [] ≡ codes "api-2"
unfolding derive_project_prefix choose_prefix free_candidate prefix_candidate
    sanitize_project_prefix slug_from project_basename after_last before trim_matches
    trim_end_matches rev drop_while is_empty contains text_beq to_ascii_lowercase ascii_lower
    is_ascii_alphanumeric is_ascii_alphabetic is_ascii_lowercase is_ascii_digit to_decimal
    digits_from
second_api = refl
