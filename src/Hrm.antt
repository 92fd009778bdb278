-- ===== src/Hrm.antt =====
-- gmrag_api/src/auth/hrm.rs: the HRM mode, in which a token's role decides the membership of one
-- workspace. The OpenFGA server is a parameter; UUIDs are numbers, and their text form is one too.
pub mod Scope
pub mod Provision
pub mod Checks
use hrm_grag.Db.{Result, err, ok}
use hrm_grag.Prelude.{
  Bool, List, Option, String, [], any, false, holds, if◌then◌else◌, is_empty, none, not, select,
  some, true, ℕ, ◌&&◌, ◌++◌, ◌==◌, ◌||◌, ◌∷◌,
}
use hrm_grag.Prelude.Text.{Text, Uuid, codes, split, text_eq, trim}

pub data Relation : Type 0 where
  admin owner platform member can_assign_role can_manage_member : Relation
  workspace explicit_viewer bypass_viewer tenant : Relation

pub record HrmConfig : Type 0 where
  pub tenant_id : ℕ
  pub workspace_id : ℕ

pub record HrmConfigError : Type 0 where
  pub key : String
  pub invalid : Bool

-- `std::env::var`
pub data Var : Type 0 where
  present : Text → Var
  not_present not_unicode : Var

unfoldable pub required_uuid : Uuid → (String → Var) → String → Result HrmConfigError ℕ
required_uuid uuid env name = elim (env name) [
  | present value ↦ elim (uuid.parse_str (trim value)) [
    | none ↦ err (record { key = name; invalid = true })
    | some id ↦ ok id
  ]
  | not_present ↦ err (record { key = name; invalid = false })
  | not_unicode ↦ err (record { key = name; invalid = false })
]

-- `HRM_MODE`: absent is off, and anything but `true` and `false` is an error.
abbrev enabled : Var → Result HrmConfigError Bool
enabled (present value) =
    if text_eq (trim value) (codes "true")
    then ok true
    else if text_eq (trim value) (codes "false")
    then ok false
    else err (record { key = "HRM_MODE"; invalid = true })
enabled not_present = ok false
enabled not_unicode = err (record { key = "HRM_MODE"; invalid = true })

-- `HrmConfig::from_env`
unfoldable pub from_env : Uuid → (String → Var) → Result HrmConfigError (Option HrmConfig)
from_env uuid env = elim (enabled (env "HRM_MODE")) [
  | err e ↦ err e
  | ok false ↦ ok none
  | ok true ↦ elim (required_uuid uuid env "HRM_TENANT_ID") [
    | err e ↦ err e
    | ok tenant_id ↦ elim (required_uuid uuid env "HRM_WORKSPACE_ID") [
      | err e ↦ err e
      | ok workspace_id ↦ ok (some (record { tenant_id = tenant_id; workspace_id = workspace_id }))
    ]
  ]
]

-- `none` is `InvalidRole`.
unfoldable pub role_relation : Option Text → Option Relation
role_relation none = none
role_relation (some role) =
    if text_eq role (codes "MANAGER") || text_eq role (codes "EMPLOYEE")
    then some member
    else if text_eq role (codes "ADMIN") || text_eq role (codes "HR")
    then some admin
    else none

-- `segments.join(c)`
unfoldable pub join : ℕ → List Text → Text
join c [] = []
join c (s ∷ []) = s
join c (s ∷ t ∷ ss) = s ++ c ∷ join c (t ∷ ss)

-- The loop: the segment after `before` is changed in place, so the next one sees the new text.
unfoldable pub replace_alias : Text → Text → List Text → Bool × List Text
replace_alias alias_target before [] = (false, [])
replace_alias alias_target before (s ∷ ss) =
    let hit = text_eq before (codes "workspaces") && text_eq s (codes "hrm") in
    let s' = if hit then alias_target else s in
    let (resolved, rest) = replace_alias alias_target s' ss in (hit || resolved, s' ∷ rest)

abbrev alias_of : Text → List Text → Option Text
alias_of alias_target [] = none
alias_of alias_target (s ∷ ss) =
    let (resolved, rest) = replace_alias alias_target s ss in
    if resolved then some (join b'/' (s ∷ rest)) else none

unfoldable pub resolve_workspace_alias_path : Uuid → Text → HrmConfig → Option Text
resolve_workspace_alias_path uuid path config =
    alias_of (uuid.to_string config.workspace_id) (split b'/' path)

pub data HrmScopeError : Type 0 where
  wrong_tenant wrong_workspace : ℕ → HrmScopeError

-- One pair of neighbouring segments, the second as a UUID if it is one; `none` lets it pass.
abbrev pub candidate_error : HrmConfig → Text → Option ℕ → Option HrmScopeError
candidate_error config a none = none
candidate_error config a (some candidate) =
    if text_eq a (codes "tenants") && not (candidate == config.tenant_id)
    then some (wrong_tenant candidate)
    else if text_eq a (codes "workspaces") && not (candidate == config.workspace_id)
    then some (wrong_workspace candidate)
    else none

abbrev stop_at : Option HrmScopeError → Result HrmScopeError Unit → Result HrmScopeError Unit
stop_at none rest = rest
stop_at (some e) rest = err e

-- `segments.windows(2)`, in order.
unfoldable pub check_pairs : Uuid → HrmConfig → List Text → Result HrmScopeError Unit
check_pairs uuid config [] = ok tt
check_pairs uuid config (a ∷ []) = ok tt
check_pairs uuid config (a ∷ b ∷ ss) =
    stop_at (candidate_error config a (uuid.parse_str b)) (check_pairs uuid config (b ∷ ss))

unfoldable pub ensure_scope : Uuid → Text → HrmConfig → Result HrmScopeError Unit
ensure_scope uuid path config =
    check_pairs uuid config (select (λ s. not (is_empty s)) (split b'/' path))

pub record JwtClaims : Type 0 where
  pub sub : Text
  pub email : Option Text
  pub role : Option Text
  pub permissions : List Text

abbrev pub has_chatbot_permission : JwtClaims → Bool
has_chatbot_permission claims = any (λ p. text_eq p (codes "CHATBOT_USE")) claims.permissions

abbrev pub has_document_upload_permission : JwtClaims → Bool
has_document_upload_permission claims =
    any (λ p. text_eq p (codes "CHATBOT_UPLOAD_DOCUMENT")) claims.permissions

-- The guard of a route, by the permission that it asks for: `false` is a 403.
abbrev guard : (JwtClaims → Bool) → Bool → Option JwtClaims → Bool
guard p hrm_mode claims = if not hrm_mode then true else holds p claims

unfoldable pub require_chat_permission : Bool → Option JwtClaims → Bool
require_chat_permission = guard has_chatbot_permission

unfoldable pub require_document_upload_permission : Bool → Option JwtClaims → Bool
require_document_upload_permission = guard has_document_upload_permission
