-- ===== src/Tests/Policy.antt =====
-- Two permission profiles with different scopes.
use coterie.Prelude.{◌≡◌, true, false}
use coterie.Policy.{
  PermissionProfile, project_write, workspace_write, provider_default, deny, interactive, user,
  auto_review, intersect, no_more_permissive_than,
}
use coterie.Policy.Laws.{is_within, intersect_meet}

abbrev project_profile : PermissionProfile
project_profile = record {
  filesystem = project_write;
  network = provider_default;
  approvals = interactive;
  approval_reviewer = user;
}

abbrev review_profile : PermissionProfile
review_profile = record {
  filesystem = workspace_write;
  network = deny;
  approvals = interactive;
  approval_reviewer = auto_review;
}

intersect_meet_example :
    (no_more_permissive_than review_profile project_profile ≡ false)
    × (intersect project_profile review_profile ≡ intersect review_profile project_profile)
    × (is_within (intersect project_profile review_profile) project_profile ≡ true)
    × (is_within (intersect project_profile review_profile) review_profile ≡ true)
    × (is_within review_profile (intersect project_profile review_profile) ≡ false)
unfolding is_within
intersect_meet_example = intersect_meet review_profile project_profile review_profile
