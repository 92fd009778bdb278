-- ===== src/Storage/Settings.antt =====
-- The configuration of gmrag_api/src/storage/mod.rs, read from the environment, and the settings
-- of gmrag_api/src/storage/outbox.rs.
use hrm_grag.Db.{Result, err, ok}
use hrm_grag.Outbox.{parse_env_i32, parse_env_i64, u64_max}
use hrm_grag.Outbox.Table.{ProcessorConfig}
use hrm_grag.Prelude.{
  Bool, Option, String, false, if◌then◌else◌, is_empty, none, some, true, ℕ, ◌||◌,
}
use hrm_grag.Prelude.Int.{pos}
use hrm_grag.Prelude.Text.{Text, codes, parse_unsigned, text_eq, to_ascii_lowercase, trim}

pub record StorageConfig : Type 0 where
  pub endpoint_url : Option Text
  pub region : Text
  pub bucket : Text
  pub access_key_id : Text
  pub secret_access_key : Text
  pub force_path_style : Bool
  pub presign_expiry_secs : ℕ

pub data StorageConfigError : Type 0 where
  missing_env : String → StorageConfigError
  invalid_bool invalid_number : String → Text → StorageConfigError

abbrev non_empty : Text → Option Text
non_empty value = if is_empty value then none else some value

-- The value without the space around it, if there is something left.
abbrev trimmed : Option Text → Option Text
trimmed none = none
trimmed (some value) = non_empty (trim value)

abbrev present_value : String → Option Text → Result StorageConfigError Text
present_value key none = err (missing_env key)
present_value key (some value) = ok value

unfoldable pub required_env : (String → Option Text) → String → Result StorageConfigError Text
required_env env key = present_value key (trimmed (env key))

unfoldable pub parse_bool : Text → String → Result StorageConfigError Bool
parse_bool value key =
    let v = to_ascii_lowercase (trim value) in
    if text_eq v (codes "1")
      || text_eq v (codes "true")
      || text_eq v (codes "yes")
      || text_eq v (codes "on")
    then ok true
    else if text_eq v (codes "0")
        || text_eq v (codes "false")
        || text_eq v (codes "no")
        || text_eq v (codes "off")
    then ok false
    else err (invalid_bool key value)

abbrev parsed_number : Text → String → Option ℕ → Result StorageConfigError ℕ
parsed_number value key none = err (invalid_number key value)
parsed_number value key (some n) = ok n

unfoldable pub parse_u64 : Text → String → Result StorageConfigError ℕ
parse_u64 value key = parsed_number value key (parse_unsigned u64_max (trim value))

-- `?` on a value of the environment.
abbrev try_value :
    {A B : Type 0}
    → Result StorageConfigError A
    → (A → Result StorageConfigError B)
    → Result StorageConfigError B
try_value (err e) k = err e
try_value (ok a) k = k a

-- `StorageConfig::from_provider`
unfoldable pub from_provider : (String → Option Text) → Result StorageConfigError StorageConfig
unfolding required_env parse_bool parse_u64
from_provider env =
    let required = required_env env in
    try_value (required "S3_REGION") (λ region. try_value (required "S3_BUCKET") (λ bucket.
      try_value (required "S3_ACCESS_KEY_ID") (λ access_key_id.
        try_value (required "S3_SECRET_ACCESS_KEY") (λ secret_access_key.
          try_value (required "S3_FORCE_PATH_STYLE") (λ style.
            try_value (parse_bool style "S3_FORCE_PATH_STYLE") (λ force_path_style.
              try_value (required "S3_PRESIGN_EXPIRY_SECS") (λ expiry.
                try_value (parse_u64 expiry "S3_PRESIGN_EXPIRY_SECS") (λ presign_expiry_secs.
                  ok (record {
                    endpoint_url = trimmed (env "S3_ENDPOINT_URL");
                    region = region;
                    bucket = bucket;
                    access_key_id = access_key_id;
                    secret_access_key = secret_access_key;
                    force_path_style = force_path_style;
                    presign_expiry_secs = presign_expiry_secs;
                  })))))))))

pub data StorageOutboxEventType : Type 0 where
  delete_object delete_prefix : StorageOutboxEventType

abbrev pub as_str : StorageOutboxEventType → Text
as_str delete_object = codes "delete_object"
as_str delete_prefix = codes "delete_prefix"

unfoldable pub parse : Text → Option StorageOutboxEventType
parse raw =
    let name = to_ascii_lowercase (trim raw) in
    if text_eq name (codes "delete_object")
    then some delete_object
    else if text_eq name (codes "delete_prefix")
    then some delete_prefix
    else none

abbrev pub StorageOutboxProcessorConfig : Type 0
StorageOutboxProcessorConfig = ProcessorConfig

-- `StorageOutboxProcessorConfig::default`
abbrev pub default_config : StorageOutboxProcessorConfig
default_config = record {
  batch_size = pos 50;
  max_retries = pos 5;
  backoff = record {
    base_backoff_secs = pos 2;
    max_backoff_secs = pos 300;
    claim_lease_secs = pos 120;
  };
}

-- `StorageOutboxProcessorConfig::from_env`
unfoldable pub config_from_env : (String → Option Text) → StorageOutboxProcessorConfig
config_from_env env = record {
  batch_size = parse_env_i64 (env "STORAGE_OUTBOX_BATCH_SIZE") (pos 50) (pos 1) (pos 500);
  max_retries = parse_env_i32 (env "STORAGE_OUTBOX_MAX_RETRIES") (pos 5) (pos 1) (pos 100);
  backoff = record {
    base_backoff_secs =
        parse_env_i64 (env "STORAGE_OUTBOX_BASE_BACKOFF_SECS") (pos 2) (pos 0) (pos 3600);
    max_backoff_secs =
        parse_env_i64 (env "STORAGE_OUTBOX_MAX_BACKOFF_SECS") (pos 300) (pos 0) (pos 86400);
    claim_lease_secs =
        parse_env_i64 (env "STORAGE_OUTBOX_CLAIM_LEASE_SECS") (pos 120) (pos 10) (pos 3600);
  };
}
