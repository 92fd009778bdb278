-- ===== src/Acl/Checks.antt =====
-- Changes by gmrag_api/src/auth/document_acl.rs of who may see a restricted document.
use hrm_grag.Acl.{
  AclError, PermissionsAudit, Reader, State, Tables, explicit_viewer_tuple, in_transaction,
  restricted, workspace_default,
}
use hrm_grag.Acl.Change.{set_document_access_mode}
use hrm_grag.Acl.Permissions.{new_audit}
use hrm_grag.Acl.Replace.{replace_document_permissions, revoke_shares}
use hrm_grag.Acl.Viewers.{uuid}
use hrm_grag.Authz.Listed.{client}
use hrm_grag.Db.{Result, World, ok}
use hrm_grag.Prelude.{Bool, Option, [], false, refl, some, true, ◌∷◌, ◌≡◌}
use hrm_grag.Prelude.Text.{codes, contains, text_eq, to_ascii_lowercase}

abbrev shared : World Tables
shared = record {
  db = record {
    documents =
        record { id = 2; workspace_id = 7; access_mode = codes "restricted"; completed = true }
        ∷ [];
    shares =
        record { document_id = 2; user_id = codes "cat" }
        ∷ record { document_id = 2; user_id = codes "ann" }
        ∷ [];
    members = [];
    audit = [];
    recovery = [];
  };
  now = 0;
  env = [];
}

abbrev opened : Result AclError (Option Unit) × State client
opened =
    set_document_access_mode client uuid 2 7 workspace_default (codes "bob")
      (shared, explicit_viewer_tuple uuid 2 (codes "ann") ∷ [])

opened_lem : (opened.0 ≡ ok (some tt)) × (opened.1.1 ≡ []) × (opened.1.0.db.shares ≡ [])
unfolding set_document_access_mode in_transaction text_eq contains to_ascii_lowercase
opened_lem = (refl, refl, refl)

-- The permissions of the document 2, which ann and cat have shares of, where OpenFGA has lost the
-- tuple of cat: bob is to have it alone.
abbrev bobs : World Tables
bobs = record shared {
  db = record shared.db { members = record { workspace_id = 7; user_id = codes "bob" } ∷ [] };
}

-- Every question is answered by yes.
abbrev willing : Reader client
willing = record {
  check_fga = λ user relation object s. ok true;
  list_objects = λ user relation kind s. ok [];
}

abbrev replaced : Result AclError (Option Unit) × State client
replaced =
    replace_document_permissions client uuid willing (λ users. users) 2 7 (codes "eve") restricted
      (codes "bob" ∷ codes "bob" ∷ []) (bobs, explicit_viewer_tuple uuid 2 (codes "ann") ∷ [])

replaced_lem :
    (replaced.0 ≡ ok (some tt))
    × (replaced.1.1 ≡ explicit_viewer_tuple uuid 2 (codes "bob") ∷ [])
    × (replaced.1.0.db.shares ≡ record { document_id = 2; user_id = codes "bob" } ∷ [])
unfolding replace_document_permissions contains to_ascii_lowercase
replaced_lem = (refl, refl, refl)

abbrev audit : PermissionsAudit
audit = new_audit restricted restricted (codes "cat" ∷ codes "ann" ∷ []) []

abbrev revoked : Result AclError (PermissionsAudit × Bool) × State client
revoked =
    revoke_shares client uuid willing (λ users. users) 2 7 (codes "eve")
      (codes "cat" ∷ codes "ann" ∷ []) audit false
      (bobs, explicit_viewer_tuple uuid 2 (codes "ann") ∷ [])
