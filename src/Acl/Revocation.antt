-- ===== src/Acl/Revocation.antt =====
-- What the loop of `replace_document_permissions` over the users to revoke leaves.
use hrm_grag.Acl.{Op, PermissionsAudit, Reader}
use hrm_grag.Acl.Replace.{revoke_shares}
use hrm_grag.Authz.{Client, Configured, Laws}
use hrm_grag.Prelude.{Bool, List, ℕ}
use hrm_grag.Prelude.Text.{Text, Uuid}

module _ (client : Client) (laws : Laws client) (configured : Configured client) (uuid : Uuid)
    (reader : Reader client) (by_collation : List Text → List Text) (document_id workspace_id : ℕ)
    (actor : Text) where
  abbrev revoke : List Text → PermissionsAudit → Bool → Op client (PermissionsAudit × Bool)
  revoke = revoke_shares client uuid reader by_collation document_id workspace_id actor
