-- ===== src/RateLimit/Checks.antt =====
-- Examples for gmrag_api/src/rate_limit.rs.
use hrm_grag.Prelude.{
  List, Option, [], arith, count, if◌then◌else◌, none, refl, some, ℕ, ◌++◌, ◌∷◌, ◌≡◌, ◌≤◌,
}
use hrm_grag.Prelude.Text.{
  Text, codes, is_whitespace, strip_prefix, text_eq, trim, trim_end, trim_start,
}
use hrm_grag.RateLimit.{
  Request, allow, bearer_token, entry, expire, new_limiter, resolve_scope_key, set_entry, tenant,
  user,
}
use hrm_grag.RateLimit.Keys.{tenant_key, user_key}
use hrm_grag.RateLimit.Window.{Call, admitted, is_within, window_limit}

abbrev call : Text → ℕ → Call
call key now = record { scope_key = key; now = now }

abbrev calls : List Call
calls =
    call (codes "user:a") 5
    ∷ call (codes "user:b") 6
    ∷ call (codes "user:a") 7
    ∷ call (codes "user:a") 8
    ∷ call (codes "user:a") 65
    ∷ []

-- The third call of `a` is refused, the fourth comes when the first has left the window.
admitted_run : admitted (codes "user:a") calls (new_limiter 2 60) ≡ 5 ∷ 7 ∷ 65 ∷ []
unfolding admitted allow entry set_entry expire text_eq
admitted_run = refl

window_limit_example :
    count (is_within 5 60) (admitted (codes "user:a") calls (new_limiter 2 60)) ≤ 2
window_limit_example =
    window_limit 2 60 (codes "user:a") calls 5 (omega arith)
      (omega arith, (omega arith, (omega arith, (omega arith, (omega arith, tt)))))

abbrev claim_of : Text → Option Text
claim_of payload = if text_eq payload (codes "p") then some (codes " u1 ") else none

abbrev request : Request
request = record {
  method = "POST";
  matched_path = some "/workspaces/{workspace_id}/chat";
  uri_path = codes "/workspaces/3/chat";
  authorization = some (codes "Bearer h.p.s");
}

token_run : bearer_token request ≡ some (codes "h" ++ b'.' ∷ (codes "p" ++ b'.' ∷ codes "s"))
unfolding bearer_token trim trim_start trim_end is_whitespace strip_prefix
token_run = refl

user_key_example :
    resolve_scope_key claim_of request user ≡ some (codes "user:" ++ trim (codes " u1 "))
unfolding trim trim_start trim_end is_whitespace text_eq
user_key_example =
    user_key claim_of request (codes "h") (codes "p") (codes "s") (codes " u1 ") token_run
      (refl, tt) (refl, tt) refl (λ e. cc)

tenant_key_example :
    resolve_scope_key claim_of
      (record {
        method = "POST";
        matched_path = some "/tenants/{tenant_id}/owners";
        uri_path = codes "/tenants/" ++ codes "t1" ++ b'/' ∷ codes "owners";
        authorization = none;
      })
      tenant
    ≡ some (codes "tenant:" ++ codes "t1")
tenant_key_example =
    tenant_key claim_of "POST" (some "/tenants/{tenant_id}/owners") none b't' (codes "1")
      (codes "owners") (refl, (refl, tt))
