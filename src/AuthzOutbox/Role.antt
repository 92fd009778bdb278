-- ===== src/AuthzOutbox/Role.antt =====
-- The roles of gmrag_api/src/auth/workspace_role.rs.
use hrm_grag.Hrm.{Relation, admin, member}
use hrm_grag.Prelude.{Bool, Option, false, if◌then◌else◌, none, some, true}
use hrm_grag.Prelude.Text.{Text, codes, text_eq, to_ascii_lowercase, to_ascii_uppercase, trim}

pub data WorkspaceMemberRole : Type 0 where
  member_role admin_role : WorkspaceMemberRole

-- `none` is the error `INVALID_MEMBER_ROLE`.
unfoldable pub parse_api : Text → Option WorkspaceMemberRole
parse_api input =
    let name = to_ascii_lowercase (trim input) in
    if text_eq name (codes "member")
    then some member_role
    else if text_eq name (codes "admin")
    then some admin_role
    else none

abbrev pub as_sql : WorkspaceMemberRole → Text
as_sql member_role = codes "MEMBER"
as_sql admin_role = codes "ADMIN"

abbrev pub as_fga_relation : WorkspaceMemberRole → Relation
as_fga_relation member_role = member
as_fga_relation admin_role = admin

unfoldable pub from_sql : Text → Option WorkspaceMemberRole
from_sql role =
    let name = to_ascii_uppercase (trim role) in
    if text_eq name (codes "MEMBER")
    then some member_role
    else if text_eq name (codes "ADMIN")
    then some admin_role
    else none

abbrev pub is_admin : WorkspaceMemberRole → Bool
is_admin admin_role = true
is_admin member_role = false
