-- ===== src/AuthzOutbox/Synced.antt =====
-- What a role event leaves, from the row to OpenFGA.
use hrm_grag.Authz.{Client, Laws}
use hrm_grag.AuthzOutbox.Role.{WorkspaceMemberRole, from_sql, is_admin}
use hrm_grag.AuthzOutbox.RoleSync.{IsHeld}
use hrm_grag.AuthzOutbox.Rows.{Codec}
use hrm_grag.Prelude.{Option, false, none, not, some, ℕ, ◌≡◌}
use hrm_grag.Prelude.Text.{Text, Uuid}

module _ (codec : Codec) (client : Client) (laws : Laws client) (uuid : Uuid) where
  -- OpenFGA has the relation of the role that SQL has, which is one that is known.
  abbrev pub IsSynced : ℕ → Text → Option Text → client.Store → client.Store → Type 0
  IsSynced workspace_id user_id none s s' =
      IsHeld client laws uuid workspace_id user_id false false s s'
  IsSynced workspace_id user_id (some role) s s' =
      (r : WorkspaceMemberRole) × (from_sql role ≡ some r)
      × IsHeld client laws uuid workspace_id user_id (is_admin r) (not (is_admin r)) s s'
