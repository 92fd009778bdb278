-- ===== src/Hrm/Provision.antt =====
-- `provision_identity` of gmrag_api/src/auth/hrm.rs: a login brings the user's relation to the
-- workspace in line with the role in the token.
pub mod Synced
use hrm_grag.Db.{Result, err, ok}
use hrm_grag.Hrm.{
  HrmConfig, JwtClaims, Relation, admin, bypass_viewer, can_assign_role, can_manage_member,
  explicit_viewer, member, owner, platform, role_relation, tenant, workspace,
}
use hrm_grag.Prelude.{
  Bool, List, Option, [], any, false, if◌then◌else◌, is_empty, none, not, some, true, ℕ, ◌&&◌, ◌++◌,
  ◌==◌, ◌||◌, ◌∷◌, ◌≡◌,
}
use hrm_grag.Prelude.Text.{Text, codes, text_eq}

-- Tuples of OpenFGA, for workspaces.
pub record TupleKey : Type 0 where
  pub user : Text
  pub relation : Relation
  pub object : ℕ

pub record TupleSyncPlan : Type 0 where
  pub writes : List TupleKey
  pub deletes : List TupleKey

abbrev code_of : Relation → ℕ
code_of admin = 0
code_of owner = 1
code_of platform = 2
code_of member = 3
code_of can_assign_role = 4
code_of can_manage_member = 5
code_of workspace = 6
code_of explicit_viewer = 7
code_of bypass_viewer = 8
code_of tenant = 9

abbrev pub same_relation : Relation → Relation → Bool
same_relation a b = code_of a == code_of b

abbrev pub same_tuple : TupleKey → TupleKey → Bool
same_tuple a b =
    text_eq a.user b.user && same_relation a.relation b.relation && a.object == b.object

abbrev pub tuple_key : Text → Relation → ℕ → TupleKey
tuple_key user relation object = record { user = user; relation = relation; object = object }

abbrev pub role_tuple_presence : TupleKey → TupleKey → List TupleKey → List TupleKey → Bool × Bool
role_tuple_presence desired other desired_matches other_matches = (
  any (λ tuple. same_tuple tuple desired) desired_matches,
  any (λ tuple. same_tuple tuple other) other_matches,
)

unfoldable pub plan_tuple_sync : Text → ℕ → Relation → Relation → Bool → Bool → TupleSyncPlan
plan_tuple_sync user object desired_relation other_relation desired_present other_present = record {
  writes = if not desired_present then tuple_key user desired_relation object ∷ [] else [];
  deletes = if other_present then tuple_key user other_relation object ∷ [] else [];
}

-- The OpenFGA server: reads filtered by a key, and an atomic write. Its laws say what its
-- documentation does: a read answers the stored tuples that match the key, and a write that
-- succeeds removes the deletes and adds the writes.
pub record Fga : Type 1 where
  pub Store : Type 0
  pub stored : Store → TupleKey → Bool
  pub read_tuples : Store → TupleKey → Option (List TupleKey)
  pub write_tuples : Store → List TupleKey → List TupleKey → Option Store
  pub read-stored :
      (s : Store) (k : TupleKey) (found : List TupleKey)
      → read_tuples s k ≡ some found
      → any (λ tuple. same_tuple tuple k) found ≡ stored s k
  pub write-stored :
      (s : Store) (writes deletes : List TupleKey) (s' : Store) (k : TupleKey)
      → write_tuples s writes deletes ≡ some s'
      → stored s' k ≡ (
          any (λ tuple. same_tuple tuple k) writes
          || (stored s k && not (any (λ tuple. same_tuple tuple k) deletes)))

pub data HrmProvisionError : Type 0 where
  invalid_role database authz : HrmProvisionError

pub record User : Type 0 where
  pub id : Text
  pub email : Text

-- ON CONFLICT (id) DO UPDATE, or DO NOTHING.
unfoldable pub insert_user : Bool → Text → Text → List User → List User
insert_user replace id email [] = record { id = id; email = email } ∷ []
insert_user replace id email (u ∷ us) =
    let rest = insert_user replace id email us in
    if text_eq u.id id then (if replace then record u { email = email } else u) ∷ us else u ∷ rest

module _ (normalize_email : Text → Text) where
  unfoldable pub upsert_hrm_user : Text → Option Text → List User → List User
  unfolding insert_user
  upsert_hrm_user user_id email users =
      let fallback = insert_user false user_id (user_id ++ codes "@hrm.local") users in
      elim email [
        | none ↦ fallback
        | some given ↦
            let address = normalize_email given in
            if is_empty address then fallback else insert_user true user_id address users
      ]

  module _ (fga : Fga) where
    pub record Site : Type 0 where
      pub users : List User
      pub tuples : fga.Store

    -- The tail of the function, from the plan on.
    abbrev pub apply_plan : TupleSyncPlan → Site → Result HrmProvisionError Unit × Site
    apply_plan plan site =
        if not (is_empty plan.writes) || not (is_empty plan.deletes)
        then elim (fga.write_tuples site.tuples plan.writes plan.deletes) [
          | none ↦ (err authz, site)
          | some tuples ↦ (ok tt, record site { tuples = tuples })
        ]
        else (ok tt, site)

    -- The other cases of `match` are unreachable: a role gives `member` or `admin`.
    abbrev pub other_of : Relation → Relation
    other_of member = admin
    other_of _ = member

    -- From the answers of the two reads on.
    abbrev pub sync_read :
        ℕ
        → Text
        → Relation
        → Option (List TupleKey)
        → Option (List TupleKey)
        → Site
        → Result HrmProvisionError Unit × Site
    sync_read object user desired_relation none other_result site = (err authz, site)
    sync_read object user desired_relation (some desired_matches) none site = (err authz, site)
    sync_read object user desired_relation (some desired_matches) (some other_matches) site =
        let other_relation = other_of desired_relation in
        let (d, o) =
          role_tuple_presence (tuple_key user desired_relation object)
            (tuple_key user other_relation object) desired_matches other_matches in
        apply_plan (plan_tuple_sync user object desired_relation other_relation d o) site

    abbrev pub sync : ℕ → Text → Relation → Site → Result HrmProvisionError Unit × Site
    sync object user desired_relation site =
        sync_read object user desired_relation
          (fga.read_tuples site.tuples (tuple_key user desired_relation object))
          (fga.read_tuples site.tuples (tuple_key user (other_of desired_relation) object)) site

    abbrev provision_as :
        Option Relation → Bool → HrmConfig → JwtClaims → Site → Result HrmProvisionError Unit × Site
    provision_as none database_up config claims site = (err invalid_role, site)
    provision_as (some desired_relation) database_up config claims site =
        if not database_up
        then (err database, site)
        else sync config.workspace_id (codes "user:" ++ claims.sub) desired_relation
            (record site { users = upsert_hrm_user claims.sub claims.email site.users })

    -- `database_up` says whether the user's row can be written.
    unfoldable pub provision_identity :
        Bool → HrmConfig → JwtClaims → Site → Result HrmProvisionError Unit × Site
    unfolding upsert_hrm_user plan_tuple_sync
    provision_identity database_up config claims site =
        provision_as (role_relation claims.role) database_up config claims site
