-- ===== src/RateLimit/Keys.antt =====
-- The keys under which gmrag_api/src/rate_limit.rs counts, and the requests that it does not
-- count.
use hrm_grag.Prelude.{
  All, List, Option, String, [], ap, arith, false, refl, some, ℕ, ◌++◌, ◌==◌, ◌∙◌, ◌∷◌, ◌≡◌, ◌≢◌,
}
use hrm_grag.Prelude.Text.{
  Text, codes, cut-free, split, split-free, text_eq, trim, trim_start_matches,
}
use hrm_grag.RateLimit.{
  Request, bearer_token, nonempty, parse_jwt_sub, payload_sub, resolve_scope_key,
  resolve_tenant_scope_key, resolve_user_scope_key, sub_of, tenant, tenant_of, user,
}

abbrev FreeOf : ℕ → Text → Type 0
FreeOf c s = All (λ d. (d == c) ≡ false) s

-- A path below a tenant is counted under that tenant's identifier, whatever follows it.
pub tenant_key :
    (sub_claim : Text → Option Text) (method : String) (matched_path : Option String)
    (authorization : Option Text) (first : ℕ) (id rest : Text)
    → FreeOf b'/' (first ∷ id)
    → resolve_scope_key sub_claim
        (record {
          method = method;
          matched_path = matched_path;
          uri_path = codes "/tenants/" ++ (first ∷ id) ++ b'/' ∷ rest;
          authorization = authorization;
        })
        tenant
      ≡ some (codes "tenant:" ++ first ∷ id)
unfolding resolve_tenant_scope_key trim_start_matches split text_eq
tenant_key sub_claim method matched_path authorization first id rest free =
    ap (λ (y : Text × List Text). tenant_of (codes "tenants" ∷ y.0 ∷ y.1))
      (cut-free b'/' (first ∷ id) rest free)

token_sub :
    (sub_claim : Text → Option Text) (header payload signature sub : Text)
    → FreeOf b'.' header
    → FreeOf b'.' payload
    → sub_claim payload ≡ some sub
    → parse_jwt_sub sub_claim (header ++ b'.' ∷ (payload ++ b'.' ∷ signature)) ≡ nonempty (trim sub)
unfolding parse_jwt_sub
token_sub sub_claim header payload signature sub hf pf claimed =
    let parts =
      split-free b'.' header (payload ++ b'.' ∷ signature) hf
      ∙ ap (λ (ps : List Text). header ∷ ps) (split-free b'.' payload signature pf) in
    ap (payload_sub sub_claim) parts ∙ ap sub_of claimed

nonempty-some : (s : Text) → s ≢ [] → nonempty s ≡ some s
nonempty-some [] h = elim (h refl) [ ]
nonempty-some (c ∷ s) h = refl

-- A bearer token of three parts, whose payload has a claim `sub` that is not blank: the key is
-- that claim, and the signature has no part in it, so that two such tokens that differ only
-- there are counted together.
pub user_key :
    (sub_claim : Text → Option Text) (request : Request) (header payload signature sub : Text)
    → bearer_token request ≡ some (header ++ b'.' ∷ (payload ++ b'.' ∷ signature))
    → FreeOf b'.' header
    → FreeOf b'.' payload
    → sub_claim payload ≡ some sub
    → trim sub ≢ []
    → resolve_scope_key sub_claim request user ≡ some (codes "user:" ++ trim sub)
unfolding resolve_user_scope_key parse_jwt_sub
user_key sub_claim request header payload signature sub token hf pf claimed full =
    let named =
      token_sub sub_claim header payload signature sub hf pf claimed
      ∙ nonempty-some (trim sub) full in
    ground (arith, token, named)
