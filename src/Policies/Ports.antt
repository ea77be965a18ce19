-- ===== src/Policies/Ports.antt =====
-- `allocate_service_ports` of crates/common/src/domain/policies.rs. Ports are 16-bit numbers, whose sums
-- and products wrap.
pub mod Free
use sebenza.Base.{
  ℕ, zero, suc, ◌+◌, ◌-◌, ◌*◌, ◌/◌, ◌%◌, ◌^◌, max, Text, Bool, true, false, not, ◌&&◌, Option, none,
  some, List, [], ◌∷◌, ◌==◌, nat_eq, text_eq, ltb, filter, filter_map, contains, length, lookup,
  insert, is_some, unwrap_or, first_free, if◌then◌else◌,
}
use sebenza.Worktree.{WorktreeMeta, ServiceSpec}

abbrev pub u16 : ℕ → ℕ
u16 n = n % 2 ^ 16

-- The body of the first loop: the slot that a worktree's port takes, if it takes one.
unfoldable pub slot_of : ℕ → ℕ → ℕ → Option ℕ
slot_of start step port =
    if ltb port start
    then none
    else if not ((port - start) % step == 0)
    then none
    else some ((port - start) / step)

abbrev pub slot_of_meta : Text → ℕ → ℕ → WorktreeMeta → Option ℕ
slot_of_meta port_env start step meta = elim (lookup port_env meta.allocated_ports) [
  | none ↦ none
  | some port ↦ slot_of start step port
]

unfoldable pub occupied_slots : List WorktreeMeta → Text → ℕ → ℕ → List ℕ
occupied_slots metas port_env start step = filter_map (slot_of_meta port_env start step) metas

-- The second loop, from slot 1. It has fuel for one more round than there are slots taken, and
-- `u16` is the increment's wrap.
unfoldable pub free_slot : List ℕ → ℕ
free_slot occupied = u16 (first_free (λ n. contains occupied (u16 n)) (suc (length occupied)) 1)

unfoldable pub service_port : ℕ → ServiceSpec → ℕ
service_port slot service =
    u16 (unwrap_or service.port_start 0 + slot * unwrap_or service.port_step 1)

-- The last loop: a port for every service.
unfoldable pub assign_ports : ℕ → List ServiceSpec → List (Text × ℕ) → List (Text × ℕ)
assign_ports slot [] result = result
assign_ports slot (service ∷ services) result =
    assign_ports slot services (insert service.port_env (service_port slot service) result)

abbrev pub reference_slot : List WorktreeMeta → ServiceSpec → ℕ
reference_slot metas reference = free_slot (
    occupied_slots metas reference.port_env (unwrap_or reference.port_start 0)
      (max (unwrap_or reference.port_step 1) 1))

unfoldable pub allocate_from : List WorktreeMeta → List ServiceSpec → List (Text × ℕ)
allocate_from metas [] = []
allocate_from metas (reference ∷ services) =
    assign_ports (reference_slot metas reference) (reference ∷ services) []

unfoldable pub allocate_service_ports : List WorktreeMeta → List ServiceSpec → List (Text × ℕ)
unfolding allocate_from
allocate_service_ports metas services =
    allocate_from metas (filter (λ s. is_some s.port_start) services)
