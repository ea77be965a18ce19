-- ===== src/Policies/Ports/Free.antt =====
-- The port that a new worktree gets for the first service is no other worktree's.
use sebenza.Base.{
  length-filter_map, ℕ, suc, ◌+◌, ◌*◌, ◌≤◌, ◌<◌, max, Text, ◌≡◌, refl, sym, ap, ◌∙◌, Bool, true,
  false, not, Option, none, some, List, [], ◌∷◌, ◌==◌, nat_eq, text_eq, nat_beq_iff, all, any,
  contains, length, lookup, insert, lookup-insert, lookup-insert_same, filter, filter_map, is_some,
  first_free, first_free-free, first_free-le, first_free-cong, arith, unwrap_or,
}
use native.Mathlib.Nat.{mul-le-mul_right, mul-mod_left, mul-div_left, add-sub_cancel_left}
use sebenza.Worktree.{WorktreeMeta, ServiceSpec}
use sebenza.Policies.Ports.{
  allocate_from, u16, slot_of, slot_of_meta, occupied_slots, free_slot, service_port, assign_ports,
  reference_slot, allocate_service_ports,
}

-- Ports that are assigned to other services leave that of `env` as it is.
lookup-assign_ports :
    (env : Text) (slot : ℕ) (services : List ServiceSpec) (result : List (Text × ℕ))
    → any (λ s. s.port_env == env) services ≡ false
    → lookup env (assign_ports slot services result) ≡ lookup env result
unfolding any assign_ports
lookup-assign_ports env slot [] result h = refl
lookup-assign_ports env slot (s ∷ services) result h = ground (
  arith,
  h,
  lookup-assign_ports env slot services (insert s.port_env (service_port slot s) result),
  lookup-insert s.port_env env (service_port slot s) result,
)

-- The slot of a port that was made from a slot.
slot_of-made :
    (start step slot : ℕ) → 0 < step → slot_of start step (start + slot * step) ≡ some slot
unfolding slot_of
slot_of-made start step slot pos = ground (
  arith,
  pos,
  mul-mod_left slot step,
  mul-div_left slot pos,
  add-sub_cancel_left start (slot * step),
)

contains-filter_map :
    {A : Type 0} (f : A → Option ℕ) (xs : List A) (n : ℕ)
    → contains (filter_map f xs) n ≡ false
    → all (λ x. elim (f x) [ none ↦ true | some k ↦ not (k == n) ]) xs ≡ true
unfolding filter_map contains all
contains-filter_map f [] n h = refl
contains-filter_map f (x ∷ xs) n h = ground (arith, h, contains-filter_map f xs n)

u16_small : (n : ℕ) → n < 65536 → u16 n ≡ n
u16_small n h = omega (arith, h)

-- The slot that the search returns is not taken, while there are fewer worktrees than slots.
free_slot-free :
    (occupied : List ℕ)
    → length occupied < 65534
    → (contains occupied (free_slot occupied) ≡ false)
      × (free_slot occupied ≤ suc (length occupied) + 1)
unfolding free_slot
free_slot-free occupied small =
    let found = first_free (λ n. contains occupied n) (suc (length occupied)) 1 in
    let bound = first_free-le (λ n. contains occupied n) (suc (length occupied)) 1 in
    let same =
      first_free-cong (λ n. contains occupied (u16 n)) (λ n. contains occupied n)
        (suc (length occupied)) 1
        (λ k low high. ap (contains occupied) (u16_small k (omega (arith, high, small)))) in
    let exact = ap u16 same ∙ u16_small found (omega (arith, bound, small)) in
    (
      ap (contains occupied) exact
          ∙ first_free-free (λ n. contains occupied n) occupied (suc (length occupied)) 1 (λ k h. h)
              (omega arith),
      omega (arith, exact, bound),
    )

-- A worktree's port for `env`, if it has one, is not `port`.
abbrev pub lacks_port : Text → ℕ → WorktreeMeta → Bool
lacks_port env port meta = elim (lookup env meta.allocated_ports) [
  | none ↦ true
  | some taken ↦ not (taken == port)
]

lacks_port-slot :
    (env : Text) (start step slot : ℕ) (meta : WorktreeMeta)
    → 0 < step
    → elim (slot_of_meta env start step meta) [ none ↦ true | some k ↦ not (k == slot) ] ≡ true
    → lacks_port env (start + slot * step) meta ≡ true
lacks_port-slot env start step slot meta pos h = ground (
  arith,
  h,
  slot_of-made start step slot pos,
  (λ (port : ℕ). nat_beq_iff port (start + slot * step)),
  nat_beq_iff slot slot,
)

max_pos : (n : ℕ) → 0 < n → max n 1 ≡ n
max_pos n h = omega (arith, h)

length-occupied_slots :
    (metas : List WorktreeMeta) (env : Text) (start step : ℕ)
    → length (occupied_slots metas env start step) ≤ length metas
unfolding occupied_slots
length-occupied_slots metas env start step = length-filter_map (slot_of_meta env start step) metas

-- What a list of slots says of all the worktrees that it was made from.
lacks_port-occupied :
    (env : Text) (start step slot : ℕ) (metas : List WorktreeMeta)
    → 0 < step
    → contains (occupied_slots metas env start step) slot ≡ false
    → all (lacks_port env (start + slot * step)) metas ≡ true
unfolding occupied_slots filter_map contains all
lacks_port-occupied env start step slot [] pos h = refl
lacks_port-occupied env start step slot (meta ∷ metas) pos h = ground (
  arith,
  h,
  lacks_port-slot env start step slot meta pos,
  lacks_port-occupied env start step slot metas pos,
)

-- The first service's port is the one of the slot, for it comes first and no later one replaces it.
lookup-allocate_service_ports :
    (metas : List WorktreeMeta) (services : List ServiceSpec) (reference : ServiceSpec)
    (rest : List ServiceSpec)
    → filter (λ s. is_some s.port_start) services ≡ reference ∷ rest
    → any (λ s. s.port_env == reference.port_env) rest ≡ false
    → lookup reference.port_env (allocate_service_ports metas services)
      ≡ some (service_port (reference_slot metas reference) reference)
unfolding allocate_service_ports allocate_from assign_ports
lookup-allocate_service_ports metas services reference rest some_ports distinct =
    ap (λ l. lookup reference.port_env (allocate_from metas l)) some_ports
    ∙ lookup-assign_ports reference.port_env (reference_slot metas reference) rest
        (insert reference.port_env (service_port (reference_slot metas reference) reference) [])
        distinct
    ∙ lookup-insert_same reference.port_env
        (service_port (reference_slot metas reference) reference) []

-- The port of a slot, when it does not overflow.
service_port-exact :
    (slot most : ℕ) (service : ServiceSpec)
    → slot ≤ most
    → unwrap_or service.port_start 0 + most * unwrap_or service.port_step 1 < 65536
    → service_port slot service
      ≡ unwrap_or service.port_start 0 + slot * unwrap_or service.port_step 1
unfolding service_port
service_port-exact slot most service le fits =
    u16_small (unwrap_or service.port_start 0 + slot * unwrap_or service.port_step 1)
      (omega (arith, fits, mul-le-mul_right (unwrap_or service.port_step 1) le))

-- The port that the first service with a port gets is stored, and it is none of the other worktrees'
-- ports for that service: the search for a slot always ends at a free one. It is so when the
-- service steps by at least 1, when no later service has the same variable, when there are fewer
-- than 65,534 worktrees and when the ports of all the slots that they can take are below 65,536.
pub allocate_service_ports-free :
    (metas : List WorktreeMeta) (services : List ServiceSpec) (reference : ServiceSpec)
    (rest : List ServiceSpec)
    → filter (λ s. is_some s.port_start) services ≡ reference ∷ rest
    → any (λ s. s.port_env == reference.port_env) rest ≡ false
    → 0 < unwrap_or reference.port_step 1
    → length metas < 65534
    → unwrap_or reference.port_start 0 + (length metas + 2) * unwrap_or reference.port_step 1
      < 65536
    → let port =
        unwrap_or reference.port_start 0
        + reference_slot metas reference * unwrap_or reference.port_step 1 in
      (lookup reference.port_env (allocate_service_ports metas services) ≡ some port)
      × (all (lacks_port reference.port_env port) metas ≡ true)
allocate_service_ports-free metas services reference rest some_ports distinct pos few fits =
    let env = reference.port_env in
    let start = unwrap_or reference.port_start 0 in
    let step = unwrap_or reference.port_step 1 in
    let stepped = max_pos step pos in
    let occupied = occupied_slots metas env start (max step 1) in
    let shorter = length-occupied_slots metas env start (max step 1) in
    let free = free_slot-free occupied (omega (arith, shorter, few)) in
    (
      lookup-allocate_service_ports metas services reference rest some_ports distinct
          ∙ ap some (
              service_port-exact (free_slot occupied) (length metas + 2) reference
                (omega (arith, shorter, free.1)) fits),
      lacks_port-occupied env start step (free_slot occupied) metas pos (
          ap (λ n. contains (occupied_slots metas env start n) (free_slot occupied)) (sym stepped)
          ∙ free.0),
    )
