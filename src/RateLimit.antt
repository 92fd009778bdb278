-- ===== src/RateLimit.antt =====
-- gmrag_api/src/rate_limit.rs: sliding windows per user or tenant, and the middleware that asks
-- them. Instants are numbers on the monotonic clock. A `HashMap` is an association list.
pub mod Window
pub mod Keys
pub mod Checks
use Prim.Native.Nat.{max}
use hrm_grag.Outbox.{u64_max}
use hrm_grag.Prelude.{
  Bool, List, Option, String, [], if◌then◌else◌, is_empty, leb, length, none, not, some, str_eq,
  true, ℕ, ◌&&◌, ◌++◌, ◌-◌, ◌||◌, ◌∷◌,
}
use hrm_grag.Prelude.Text.{
  Text, codes, parse_unsigned, split, strip_prefix, text_eq, trim, trim_start_matches,
}

pub data RateLimitCategory : Type 0 where
  chat upload auth_sensitive : RateLimitCategory

pub data RateLimitScope : Type 0 where
  user tenant : RateLimitScope

pub record RateLimitRule : Type 0 where
  pub category : RateLimitCategory
  pub scope : RateLimitScope

abbrev pub sensitive : RateLimitScope → Option RateLimitRule
sensitive s = some (record { category = auth_sensitive; scope = s })

-- The method and the route pattern that axum matched.
unfoldable pub classify_rule : String → Option String → Option RateLimitRule
classify_rule method none = none
classify_rule method (some path) =
    let post = str_eq method "POST" in
    if post && str_eq path "/workspaces/{workspace_id}/chat"
    then some (record { category = chat; scope = user })
    else if post && str_eq path "/workspaces/{workspace_id}/documents/upload"
    then some (record { category = upload; scope = user })
    else if (post && str_eq path "/users/sync")
        || (post && str_eq path "/tenants")
        || (post && str_eq path "/workspaces/{workspace_id}/members")
        || (str_eq method "PATCH" && str_eq path "/workspaces/{workspace_id}/members/{member_id}")
        || (str_eq method "DELETE" && str_eq path "/workspaces/{workspace_id}/members/{member_id}")
    then sensitive user
    else if post && str_eq path "/tenants/{tenant_id}/owners"
    then sensitive tenant
    else none

-- What the middleware reads of a request. `authorization` is the header's value where it is
-- visible ASCII.
pub record Request : Type 0 where
  pub method : String
  pub matched_path : Option String
  pub uri_path : Text
  pub authorization : Option Text

abbrev or_else : {A : Type 0} → Option A → Option A → Option A
or_else none b = b
or_else (some a) b = some a

abbrev nonempty : Text → Option Text
nonempty [] = none
nonempty (c ∷ s) = some (c ∷ s)

unfoldable pub bearer_token : Request → Option Text
bearer_token request = elim request.authorization [
  | none ↦ none
  | some header ↦
      let value = trim header in
      elim (or_else (strip_prefix (codes "Bearer ") value) (strip_prefix (codes "bearer ") value)) [
        | none ↦ none
        | some token ↦ nonempty (trim token)
      ]
]

-- `sub_claim` stands for the decoding of a payload (base64 and JSON) and its string `sub`.
abbrev sub_of : Option Text → Option Text
sub_of none = none
sub_of (some sub) = nonempty (trim sub)

abbrev payload_sub : (Text → Option Text) → List Text → Option Text
payload_sub sub_claim (header ∷ payload ∷ parts) = sub_of (sub_claim payload)
payload_sub sub_claim _ = none

unfoldable pub parse_jwt_sub : (Text → Option Text) → Text → Option Text
parse_jwt_sub sub_claim token = payload_sub sub_claim (split b'.' token)

unfoldable pub resolve_user_scope_key : (Text → Option Text) → Request → Option Text
resolve_user_scope_key sub_claim request = elim (bearer_token request) [
  | none ↦ none
  | some token ↦
      some (codes "user:" ++ elim (parse_jwt_sub sub_claim token) [ none ↦ token | some sub ↦ sub ])
]

abbrev tenant_of : List Text → Option Text
tenant_of (resource ∷ tenant_id ∷ parts) =
    if text_eq resource (codes "tenants")
    then (if is_empty tenant_id then none else some (codes "tenant:" ++ tenant_id))
    else none
tenant_of _ = none

unfoldable pub resolve_tenant_scope_key : Request → Option Text
resolve_tenant_scope_key request = tenant_of (split b'/' (trim_start_matches b'/' request.uri_path))

abbrev pub resolve_scope_key : (Text → Option Text) → Request → RateLimitScope → Option Text
resolve_scope_key sub_claim request user = resolve_user_scope_key sub_claim request
resolve_scope_key sub_claim request tenant = resolve_tenant_scope_key request

pub record SlidingWindowRateLimiter : Type 0 where
  pub max_requests : ℕ
  pub window : ℕ
  pub state : List (Text × List ℕ)

abbrev pub new_limiter : ℕ → ℕ → SlidingWindowRateLimiter
new_limiter max_requests window = record {
  max_requests = max_requests;
  window = window;
  state = [];
}

-- The queue of a key; a key that is missing gets an empty one.
unfoldable pub entry : Text → List (Text × List ℕ) → List ℕ
entry key [] = []
entry key ((k, q) ∷ m) = let rest = entry key m in if text_eq k key then q else rest

unfoldable pub set_entry : Text → List ℕ → List (Text × List ℕ) → List (Text × List ℕ)
set_entry key q [] = (key, q) ∷ []
set_entry key q ((k, old) ∷ m) =
    let rest = set_entry key q m in if text_eq k key then (k, q) ∷ m else (k, old) ∷ rest

-- The `while` loop: instants that have left the window go from the front.
unfoldable pub expire : ℕ → ℕ → List ℕ → List ℕ
expire window now [] = []
expire window now (seen_at ∷ q) =
    let rest = expire window now q in if leb window (now - seen_at) then rest else seen_at ∷ q

unfoldable pub allow : Text → ℕ → SlidingWindowRateLimiter → Bool × SlidingWindowRateLimiter
unfolding entry set_entry expire
allow scope_key now limiter =
    let queue = expire limiter.window now (entry scope_key limiter.state) in
    let full = leb limiter.max_requests (length queue) in
    (
      not full,
      record limiter {
        state = set_entry scope_key (if full then queue else queue ++ now ∷ []) limiter.state;
      },
    )

pub record RateLimiters : Type 0 where
  pub chat_limiter : SlidingWindowRateLimiter
  pub upload_limiter : SlidingWindowRateLimiter
  pub auth_sensitive_limiter : SlidingWindowRateLimiter

abbrev u32_max : ℕ
u32_max = 4294967295

-- `parse_u32_env` and `parse_u64_env`: the variable's value, if it is set and a number.
abbrev pub parse_env : ℕ → Option Text → ℕ → ℕ
parse_env bound var default = elim var [
  | none ↦ default
  | some value ↦ elim (parse_unsigned bound value) [ none ↦ default | some n ↦ n ]
]

-- `RateLimiters::from_env`, given the environment. The window is in seconds.
unfoldable pub limiters_from_env : (String → Option Text) → RateLimiters
limiters_from_env env =
    let window = max (parse_env u64_max (env "RATE_LIMIT_WINDOW_SECS") 60) 1 in
    let limiter = λ (name : String) (default : ℕ).
      new_limiter (max (parse_env u32_max (env name) default) 1) window in
    record {
      chat_limiter = limiter "RATE_LIMIT_CHAT_PER_WINDOW" 30;
      upload_limiter = limiter "RATE_LIMIT_UPLOAD_PER_WINDOW" 10;
      auth_sensitive_limiter = limiter "RATE_LIMIT_AUTH_PER_WINDOW" 20;
    }

unfoldable pub allow_category : RateLimitCategory → Text → ℕ → RateLimiters → Bool × RateLimiters
allow_category chat key now l =
    let (b, x) = allow key now l.chat_limiter in (b, record l { chat_limiter = x })
allow_category upload key now l =
    let (b, x) = allow key now l.upload_limiter in (b, record l { upload_limiter = x })
allow_category auth_sensitive key now l =
    let (b, x) = allow key now l.auth_sensitive_limiter in
    (b, record l { auth_sensitive_limiter = x })

-- `enforce_rate_limits`: whether the request goes on to its handler; otherwise it gets 429.
unfoldable pub enforce_rate_limits :
    (Text → Option Text) → Request → ℕ → RateLimiters → Bool × RateLimiters
enforce_rate_limits sub_claim request now l =
    elim (classify_rule request.method request.matched_path) [
      | none ↦ (true, l)
      | some rule ↦ elim (resolve_scope_key sub_claim request rule.scope) [
        | none ↦ (true, l)
        | some scope_key ↦ allow_category rule.category scope_key now l
      ]
    ]
