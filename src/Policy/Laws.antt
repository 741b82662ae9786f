-- ===== src/Policy/Laws.antt =====
-- The comparison and the intersection of permission profiles. (src/config/policy.rs)
use coterie.Prelude.{◌≡◌, ◌∙◌, sym, refl, Bool, true, false, ◌&&◌, arith}
use coterie.Policy.{
  FilesystemPolicy, unrestricted, project_write, workspace_write, read_only, NetworkPolicy,
  provider_default, deny, interactive, never, user, filesystem_eq, network_eq, approval_eq,
  reviewer_eq, PermissionProfile, profile_eq, filesystem_intersect, network_intersect,
  approvals_intersect, intersect, no_more_permissive_than,
}

filesystem_meet :
    (r p q : FilesystemPolicy)
    → filesystem_eq (filesystem_intersect r (filesystem_intersect p q)) r
      ≡ (filesystem_eq (filesystem_intersect r p) r && filesystem_eq (filesystem_intersect r q) r)
unfolding filesystem_eq filesystem_intersect
filesystem_meet r p q = ground arith

network_meet :
    (r p q : NetworkPolicy)
    → network_eq (network_intersect r (network_intersect p q)) r
      ≡ (network_eq (network_intersect r p) r && network_eq (network_intersect r q) r)
unfolding network_eq network_intersect
network_meet r p q = ground arith

abbrev filesystem_kept : PermissionProfile → PermissionProfile → Bool
filesystem_kept r p = filesystem_eq (filesystem_intersect r.filesystem p.filesystem) r.filesystem

abbrev network_kept : PermissionProfile → PermissionProfile → Bool
network_kept r p = network_eq (network_intersect r.network p.network) r.network

-- The two approval fields of a profile that an intersection leaves as they are.
abbrev approvals_kept : PermissionProfile → PermissionProfile → Bool
approvals_kept r p =
    approval_eq (intersect r p).approvals r.approvals
    && reviewer_eq (intersect r p).approval_reviewer r.approval_reviewer

approvals_meet :
    (r p q : PermissionProfile)
    → approvals_kept r (intersect p q) ≡ (approvals_kept r p && approvals_kept r q)
unfolding intersect approvals_intersect approval_eq reviewer_eq
approvals_meet r p q = ground arith

all_meet :
    (f1 f2 n1 n2 a1 a2 : Bool) {f n a : Bool}
    → f ≡ (f1 && f2)
    → n ≡ (n1 && n2)
    → a ≡ (a1 && a2)
    → (f && (n && a)) ≡ ((f1 && (n1 && a1)) && (f2 && (n2 && a2)))
all_meet f1 f2 n1 n2 a1 a2 u v w = ground (arith, u, v, w)

-- A profile is no more permissive than the intersection of two profiles just if it is no more
-- permissive than each of them.
below_intersect :
    (r p q : PermissionProfile)
    → no_more_permissive_than r (intersect p q)
      ≡ (no_more_permissive_than r p && no_more_permissive_than r q)
unfolding no_more_permissive_than profile_eq
below_intersect r p q =
    all_meet (filesystem_kept r p) (filesystem_kept r q) (network_kept r p) (network_kept r q)
      (approvals_kept r p) (approvals_kept r q)
      (filesystem_meet r.filesystem p.filesystem q.filesystem)
      (network_meet r.network p.network q.network) (approvals_meet r p q)

-- An intersection of two profiles is no more permissive than either of them.
intersect_bounds :
    (p q : PermissionProfile)
    → (no_more_permissive_than (intersect p q) p ≡ true)
      × (no_more_permissive_than (intersect p q) q ≡ true)
unfolding no_more_permissive_than profile_eq intersect filesystem_intersect network_intersect
    approvals_intersect filesystem_eq network_eq approval_eq reviewer_eq
intersect_bounds p q = ground arith

-- The intersection does not depend on the order of its arguments.
intersect_comm : (p q : PermissionProfile) → intersect p q ≡ intersect q p
unfolding intersect filesystem_intersect network_intersect approvals_intersect filesystem_eq
    network_eq approval_eq reviewer_eq
intersect_comm p q = ground arith

-- What a profile permits beside another one, field by field, by tables of their own.
unfoldable pub filesystem_within : FilesystemPolicy → FilesystemPolicy → Bool
filesystem_within read_only _ = true
filesystem_within _ unrestricted = true
filesystem_within workspace_write workspace_write = true
filesystem_within project_write project_write = true
filesystem_within _ _ = false

unfoldable pub network_within : NetworkPolicy → NetworkPolicy → Bool
network_within deny _ = true
network_within provider_default provider_default = true
network_within provider_default deny = false

-- Approvals that are never asked for name the user as their reviewer.
unfoldable pub approvals_within : PermissionProfile → PermissionProfile → Bool
unfolding reviewer_eq
approvals_within r p = elim r.approvals [
  | never ↦ reviewer_eq r.approval_reviewer user
  | interactive ↦ elim p.approvals [
    | never ↦ false
    | interactive ↦ reviewer_eq r.approval_reviewer p.approval_reviewer
  ]
]

unfoldable pub is_within : PermissionProfile → PermissionProfile → Bool
unfolding filesystem_within network_within approvals_within
is_within r p =
    filesystem_within r.filesystem p.filesystem
    && (network_within r.network p.network && approvals_within r p)

filesystem_kept_iff :
    (a b : FilesystemPolicy) → filesystem_eq (filesystem_intersect a b) a ≡ filesystem_within a b
unfolding filesystem_eq filesystem_intersect filesystem_within
filesystem_kept_iff a b = ground arith

network_kept_iff : (a b : NetworkPolicy) → network_eq (network_intersect a b) a ≡ network_within a b
unfolding network_eq network_intersect network_within
network_kept_iff a b = ground arith

approvals_kept_iff : (r p : PermissionProfile) → approvals_kept r p ≡ approvals_within r p
unfolding intersect approvals_intersect approval_eq reviewer_eq approvals_within
approvals_kept_iff r p = ground arith

-- The program's order is the one of the tables.
within_iff : (r p : PermissionProfile) → no_more_permissive_than r p ≡ is_within r p
unfolding no_more_permissive_than profile_eq is_within
within_iff r p =
    rw
      (
        filesystem_kept_iff r.filesystem p.filesystem,
        network_kept_iff r.network p.network,
        approvals_kept_iff r p,
      )
      refl

-- The comparison of profiles is the order of the tables `is_within`: less of the file system, less of
-- the network, and approvals that are never asked for or the same ones. In that order the
-- intersection, which does not depend on the order of its arguments, is within both profiles, and a
-- profile is within it just if it is within each of the two.
pub intersect_meet :
    (r p q : PermissionProfile)
    → (no_more_permissive_than r p ≡ is_within r p)
      × (intersect p q ≡ intersect q p)
      × (is_within (intersect p q) p ≡ true)
      × (is_within (intersect p q) q ≡ true)
      × (is_within r (intersect p q) ≡ (is_within r p && is_within r q))
intersect_meet r p q = (
  within_iff r p,
  intersect_comm p q,
  sym (within_iff (intersect p q) p) ∙ (intersect_bounds p q).0,
  sym (within_iff (intersect p q) q) ∙ (intersect_bounds p q).1,
  rw (sym (within_iff r (intersect p q)), sym (within_iff r p), sym (within_iff r q))
      (below_intersect r p q),
)
