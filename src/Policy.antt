-- ===== src/Policy.antt =====
-- src/config/policy.rs: the intersection of two policies, with the types of src/config.rs.
pub mod Laws
use coterie.Prelude.{ℕ, Bool, true, false, ◌&&◌, ◌||◌, Option, none, some, min, if◌then◌else◌}

pub data FilesystemPolicy : Type 0 where
  unrestricted project_write workspace_write read_only : FilesystemPolicy

pub data NetworkPolicy : Type 0 where
  provider_default deny : NetworkPolicy

pub data ApprovalPolicy : Type 0 where
  interactive never : ApprovalPolicy

pub data ApprovalReviewer : Type 0 where
  user auto_review : ApprovalReviewer

-- The derived `PartialEq`s.
unfoldable pub filesystem_eq : FilesystemPolicy → FilesystemPolicy → Bool
filesystem_eq unrestricted unrestricted = true
filesystem_eq project_write project_write = true
filesystem_eq workspace_write workspace_write = true
filesystem_eq read_only read_only = true
filesystem_eq _ _ = false

unfoldable pub network_eq : NetworkPolicy → NetworkPolicy → Bool
network_eq provider_default provider_default = true
network_eq deny deny = true
network_eq _ _ = false

unfoldable pub approval_eq : ApprovalPolicy → ApprovalPolicy → Bool
approval_eq interactive interactive = true
approval_eq never never = true
approval_eq _ _ = false

unfoldable pub reviewer_eq : ApprovalReviewer → ApprovalReviewer → Bool
reviewer_eq user user = true
reviewer_eq auto_review auto_review = true
reviewer_eq _ _ = false

pub record PermissionProfile : Type 0 where
  pub filesystem : FilesystemPolicy
  pub network : NetworkPolicy
  pub approvals : ApprovalPolicy
  pub approval_reviewer : ApprovalReviewer

unfoldable pub profile_eq : PermissionProfile → PermissionProfile → Bool
unfolding filesystem_eq network_eq approval_eq reviewer_eq
profile_eq p q =
    filesystem_eq p.filesystem q.filesystem
    && (network_eq p.network q.network
        && (approval_eq p.approvals q.approvals
            && reviewer_eq p.approval_reviewer q.approval_reviewer))

-- The field `filesystem` of an intersection.
unfoldable pub filesystem_intersect : FilesystemPolicy → FilesystemPolicy → FilesystemPolicy
unfolding filesystem_eq
filesystem_intersect a b =
    if filesystem_eq a b || filesystem_eq b unrestricted
    then a
    else if filesystem_eq a unrestricted
    then b
    else read_only

unfoldable pub network_intersect : NetworkPolicy → NetworkPolicy → NetworkPolicy
unfolding network_eq
network_intersect a b = if network_eq a b then a else deny

unfoldable pub approvals_intersect : PermissionProfile → PermissionProfile → ApprovalPolicy
unfolding approval_eq reviewer_eq
approvals_intersect p q =
    if approval_eq p.approvals q.approvals && reviewer_eq p.approval_reviewer q.approval_reviewer
    then p.approvals
    else never

unfoldable pub intersect : PermissionProfile → PermissionProfile → PermissionProfile
unfolding filesystem_intersect network_intersect approvals_intersect
intersect p q = record {
  filesystem = filesystem_intersect p.filesystem q.filesystem;
  network = network_intersect p.network q.network;
  approvals = approvals_intersect p q;
  approval_reviewer =
      if approval_eq (approvals_intersect p q) interactive then p.approval_reviewer else user;
}

unfoldable pub no_more_permissive_than : PermissionProfile → PermissionProfile → Bool
unfolding intersect profile_eq
no_more_permissive_than p ceiling = profile_eq (intersect p ceiling) p

pub record RunLimits : Type 0 where
  pub max_concurrent_agents : ℕ
  pub max_agents_per_run : ℕ
  pub max_spawns_per_minute : ℕ

unfoldable pub limits_intersect : RunLimits → RunLimits → RunLimits
limits_intersect a b = record {
  max_concurrent_agents = min a.max_concurrent_agents b.max_concurrent_agents;
  max_agents_per_run = min a.max_agents_per_run b.max_agents_per_run;
  max_spawns_per_minute = min a.max_spawns_per_minute b.max_spawns_per_minute;
}

pub record EffectiveRole : Type 0 where
  pub enabled : Bool
  pub max_instances : Option ℕ
  pub permission_profile : PermissionProfile

-- An omitted ceiling leaves the other one.
unfoldable pub instances_intersect : Option ℕ → Option ℕ → Option ℕ
instances_intersect (some a) (some b) = some (min a b)
instances_intersect (some a) none = some a
instances_intersect none b = b

unfoldable pub role_intersect : EffectiveRole → EffectiveRole → EffectiveRole
unfolding intersect instances_intersect
role_intersect a b = record {
  enabled = a.enabled && b.enabled;
  max_instances = instances_intersect a.max_instances b.max_instances;
  permission_profile = intersect a.permission_profile b.permission_profile;
}
