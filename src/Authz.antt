-- ===== src/Authz.antt =====
-- gmrag_api/src/auth/authz.rs, as far as other components stand on it: tuples as texts, the errors
-- of the client, and deletions that come before those in SQL. The client's requests to OpenFGA are
-- a parameter.
pub mod Deletion
pub mod Listed
mod Checks
use hrm_grag.Db.{Result, err, ok}
use hrm_grag.Hrm.{
  Relation, admin, bypass_viewer, can_assign_role, can_manage_member, explicit_viewer, member,
  owner, platform, tenant, workspace,
}
use hrm_grag.Prelude.{Bool, List, [], any, false, not, true, ℕ, ◌&&◌, ◌++◌, ◌||◌, ◌∷◌, ◌≡◌}
use hrm_grag.Prelude.Text.{Text, Uuid, codes, contains, text_eq, to_ascii_lowercase}

-- `Relation::as_str`
abbrev pub relation_str : Relation → Text
relation_str admin = codes "admin"
relation_str owner = codes "owner"
relation_str platform = codes "platform"
relation_str member = codes "member"
relation_str can_assign_role = codes "can_assign_role"
relation_str can_manage_member = codes "can_manage_member"
relation_str workspace = codes "workspace"
relation_str explicit_viewer = codes "explicit_viewer"
relation_str bypass_viewer = codes "bypass_viewer"
relation_str tenant = codes "tenant"

pub data Object : Type 0 where
  platform_object : Object
  tenant_object workspace_object document_object : ℕ → Object

-- `Display` of an object.
abbrev pub object_text : Uuid → Object → Text
object_text uuid platform_object = codes "platform:system"
object_text uuid (tenant_object id) = codes "tenant:" ++ uuid.to_string id
object_text uuid (workspace_object id) = codes "workspace:" ++ uuid.to_string id
object_text uuid (document_object id) = codes "document:" ++ uuid.to_string id

pub data AuthzError : Type 0 where
  http_failure : AuthzError
  open_fga : ℕ → Text → AuthzError

pub record TupleKey : Type 0 where
  pub user : Text
  pub relation : Text
  pub object : Text

abbrev pub same_key : TupleKey → TupleKey → Bool
same_key a b = text_eq a.user b.user && text_eq a.relation b.relation && text_eq a.object b.object

-- A request of the client: what it answers, and what the server then stores. A request that fails
-- may have been carried out.
pub record Client : Type 1 where
  pub Store : Type 0
  pub write_tuples : List TupleKey → List TupleKey → Store → Result AuthzError Unit × Store

-- The body speaks of a tuple that is not there.
abbrev pub says_missing : Text → Bool
says_missing body =
    let lower = to_ascii_lowercase body in
    contains (codes "does not exist") lower || contains (codes "not found") lower

-- The body speaks of a tuple that is there.
abbrev pub says_there : Text → Bool
says_there body =
    let lower = to_ascii_lowercase body in
    contains (codes "already exists") lower || contains (codes "already existed") lower

unfoldable pub is_missing_tuple_delete_error : AuthzError → Bool
is_missing_tuple_delete_error http_failure = false
is_missing_tuple_delete_error (open_fga status body) = says_missing body

-- OpenFGA's message about a tuple to delete that is not there.
abbrev pub names_missing : Text → Bool
names_missing body = contains (codes "cannot delete a tuple which does not exist") body

-- What OpenFGA documents of a write: it is carried out whole or not at all, it reaches no tuple that
-- it does not name, and it is refused if a tuple to delete is missing or one to write is there,
-- with a message that says so.
pub record Laws (client : Client) : Type 0 where
  pub stored : client.Store → TupleKey → Bool
  pub done :
      (writes deletes : List TupleKey) (s : client.Store) (k : TupleKey)
      → (client.write_tuples writes deletes s).0 ≡ ok tt
      → stored (client.write_tuples writes deletes s).1 k
        ≡ any (λ t. same_key t k) writes || (stored s k && not (any (λ t. same_key t k) deletes))
  pub untouched :
      (writes deletes : List TupleKey) (s : client.Store) (k : TupleKey)
      → any (λ t. same_key t k) (writes ++ deletes) ≡ false
      → stored (client.write_tuples writes deletes s).1 k ≡ stored s k
  pub missing :
      (t : TupleKey) (s : client.Store) (status : ℕ) (body : Text)
      → (client.write_tuples [] (t ∷ []) s).0 ≡ err (open_fga status body)
      → names_missing body ≡ true
      → stored (client.write_tuples [] (t ∷ []) s).1 t ≡ false
  pub there :
      (t : TupleKey) (s : client.Store) (status : ℕ) (body : Text)
      → (client.write_tuples (t ∷ []) [] s).0 ≡ err (open_fga status body)
      → says_there body ≡ true
      → stored (client.write_tuples (t ∷ []) [] s).1 t ≡ true

-- An assumption on the deployment, beyond what OpenFGA documents: the program tells a missing tuple by
-- the words 'does not exist' or 'not found' anywhere in a refusal, and there are other refusals with
-- these words, about a store or a model that is not there. Here each such refusal of a deletion is
-- that about the tuple.
pub record Configured (client : Client) : Type 0 where
  pub only_missing :
      (t : TupleKey) (s : client.Store) (status : ℕ) (body : Text)
      → (client.write_tuples [] (t ∷ []) s).0 ≡ err (open_fga status body)
      → says_missing body ≡ true
      → names_missing body ≡ true

module _ (client : Client) where
  abbrev pub Call : Type 0
  Call = client.Store → Result AuthzError Unit × client.Store

  abbrev pub write_tuple : Uuid → Text → Relation → Object → Call
  write_tuple uuid user relation object =
      client.write_tuples
        (record { user = user; relation = relation_str relation; object = object_text uuid object }
          ∷ [])
        []

  abbrev pub delete_tuple : Uuid → Text → Relation → Object → Call
  delete_tuple uuid user relation object = client.write_tuples [] (
      record { user = user; relation = relation_str relation; object = object_text uuid object }
      ∷ [])

  -- One tuple after another; the first error that is not about a missing tuple ends it.
  unfoldable pub delete_tuples_fga_first : List TupleKey → Call
  unfolding is_missing_tuple_delete_error
  delete_tuples_fga_first [] s = (ok tt, s)
  delete_tuples_fga_first (t ∷ tuples) s =
      let (r, s') = client.write_tuples [] (t ∷ []) s in
      elim r [
        | ok u ↦ delete_tuples_fga_first tuples s'
        | err e ↦ elim (is_missing_tuple_delete_error e) [
          | true ↦ delete_tuples_fga_first tuples s'
          | false ↦ (err e, s')
        ]
      ]
