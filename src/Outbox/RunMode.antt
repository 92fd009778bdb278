-- ===== src/Outbox/RunMode.antt =====
-- The command line of the outbox processors, as gmrag_api/src/retrieval/outbox.rs and
-- gmrag_api/src/auth/outbox.rs both read it, and their exit codes.
use hrm_grag.Db.{Result, err, ok}
use hrm_grag.Outbox.{clamp, u64_max}
use hrm_grag.Prelude.{Bool, List, Option, [], false, if◌then◌else◌, none, some, true, ℕ, ◌∷◌}
use hrm_grag.Prelude.Text.{Text, codes, parse_unsigned, strip_prefix, text_eq}

pub record RunMode : Type 0 where
  pub loop_mode : Bool
  pub interval_secs : ℕ

-- A value of the interval that is no number is passed over.
abbrev parsed_interval : Option ℕ → RunMode → RunMode
parsed_interval none mode = mode
parsed_interval (some parsed) mode = record mode { interval_secs = clamp 1 86400 parsed }

abbrev pub set_interval : Text → RunMode → RunMode
set_interval raw mode = parsed_interval (parse_unsigned u64_max raw) mode

abbrev joined_value : Option Text → RunMode → RunMode
joined_value none mode = mode
joined_value (some raw) mode = set_interval raw mode

abbrev joined_interval : Text → RunMode → RunMode
joined_interval arg mode = joined_value (strip_prefix (codes "--interval-secs=") arg) mode

-- One argument that is not `--interval-secs`.
abbrev single_arg : Text → RunMode → RunMode
single_arg arg mode =
    if text_eq arg (codes "--loop")
    then record mode { loop_mode = true }
    else if text_eq arg (codes "--once")
    then record mode { loop_mode = false }
    else joined_interval arg mode

-- The loop over the arguments; `--interval-secs` takes the next one, whatever it is.
unfoldable pub apply_args : List Text → RunMode → RunMode
apply_args [] mode = mode
apply_args (arg ∷ []) mode =
    if text_eq arg (codes "--interval-secs") then mode else single_arg arg mode
apply_args (arg ∷ value ∷ args) mode =
    let skipped = apply_args args (set_interval value mode) in
    let rest = apply_args (value ∷ args) (single_arg arg mode) in
    if text_eq arg (codes "--interval-secs") then skipped else rest

-- `qdrant_outbox_exit_code` and `authz_outbox_exit_code`
unfoldable pub exit_code : {E A : Type 0} → Result E A → ℕ
exit_code (ok a) = 0
exit_code (err e) = 1
