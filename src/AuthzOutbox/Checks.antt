-- ===== src/AuthzOutbox/Checks.antt =====
-- Runs of gmrag_api/src/auth/outbox.rs over an OpenFGA whose tuples are a list.
use hrm_grag.Authz.{TupleKey}
use hrm_grag.Authz.Listed.{client}
use hrm_grag.AuthzOutbox.Completion.{authz_run_ends}
use hrm_grag.AuthzOutbox.Config.{default_config}
use hrm_grag.AuthzOutbox.Processor.{process_authz_outbox, workspace_role_tuple}
use hrm_grag.AuthzOutbox.Rows.{Codec, Row, Tables, row_pending}
use hrm_grag.Db.{World}
use hrm_grag.Hrm.{admin}
use hrm_grag.Prelude.{List, Option, [], arith, none, some, ℕ, ◌∷◌, ◌≢◌}
use hrm_grag.Prelude.Int.{pos}
use hrm_grag.Prelude.Text.{Text, Uuid, codes, show_u64}

abbrev codec : Codec
codec = record {
  Value = Option TupleKey × Option (ℕ × Text);
  encode_tuple = λ t. (some t, none);
  encode_role_sync = λ workspace_id user_id. (none, some (workspace_id, user_id));
  decode_tuple = λ v. v.0;
  decode_role_sync = λ v. v.1;
  inner = λ v. none;
}

abbrev uuid : Uuid
uuid = record { parse_str = λ s. none; to_string = λ id. show_u64 id }

abbrev row : Row codec
row = record {
  id = 1;
  event_type = codes "workspace_role_sync";
  payload = codec.encode_role_sync 7 (codes "ann");
  status = row_pending;
  retry_count = pos 0;
  error_message = none;
  created_at = 0;
  updated_at = 0;
}

abbrev world : World (Tables codec)
world = record {
  db = record {
    rows = row ∷ [];
    next_uuid = 2;
    members = record { workspace_id = 7; user_id = codes "ann"; role = codes "ADMIN" } ∷ [];
  };
  now = 10;
  env = [];
}

-- Before, she has the relation already, so that OpenFGA refuses both requests.
abbrev tuples : List TupleKey
tuples = workspace_role_tuple uuid 7 (codes "ann") admin ∷ []

authz_run_ends_example :
    process_authz_outbox codec client uuid 2 default_config (world, tuples) ≢ none
authz_run_ends_example =
    authz_run_ends codec client uuid default_config 2 world tuples (omega arith)
