-- ===== src/Hrm/Checks.antt =====
-- Examples for gmrag_api/src/auth/hrm.rs, with an OpenFGA server that stores a set of tuples.
use hrm_grag.Db.{ok}
use hrm_grag.Hrm.{
  HrmConfig, JwtClaims, admin, check_pairs, ensure_scope, join, member, replace_alias,
  resolve_workspace_alias_path, role_relation,
}
use hrm_grag.Hrm.Provision.{
  Fga, Site, TupleKey, plan_tuple_sync, provision_identity, same_tuple, tuple_key, upsert_hrm_user,
}
use hrm_grag.Hrm.Provision.Synced.{IsSynced, provision-IsSynced}
use hrm_grag.Hrm.Scope.{AllPairs, IsAllowed, IsResolved, ensure_scope-AllPairs, unresolved_path}
use hrm_grag.Prelude.{
  Bool, List, Option, [], any, ap, arith, if◌then◌else◌, is_empty, leb, none, not, refl, select,
  some, sym, true, ◌&&◌, ◌+◌, ◌-◌, ◌||◌, ◌∷◌, ◌≡◌,
}
use hrm_grag.Prelude.Text.{Text, Uuid, codes, split, text_eq, text_eq_iff}

text_eq_refl : (k : Text) → text_eq k k ≡ true
text_eq_refl k = (text_eq_iff k k).1 refl

abbrev FgaSet : Type 0
FgaSet = TupleKey → Bool

abbrev set_written : FgaSet → List TupleKey → List TupleKey → FgaSet
set_written s writes deletes k =
    any (λ tuple. same_tuple tuple k) writes
    || (s k && not (any (λ tuple. same_tuple tuple k) deletes))

set-read :
    (s : FgaSet) (k : TupleKey) (found : List TupleKey)
    → some (if s k then k ∷ [] else []) ≡ some found
    → any (λ tuple. same_tuple tuple k) found ≡ s k
set-read s k found h = ground (arith, h, text_eq_refl k.user)

set-write :
    (s : FgaSet) (writes deletes : List TupleKey) (s' : FgaSet) (k : TupleKey)
    → ◌≡◌ {A = Option FgaSet} (some (set_written s writes deletes)) (some s')
    → s' k ≡ set_written s writes deletes k
set-write s writes deletes s' k h =
    ap (λ (o : Option FgaSet). elim o [ none ↦ true | some f ↦ f k ]) (sym h)

abbrev fga : Fga
fga = record {
  Store = FgaSet;
  stored = λ s k. s k;
  read_tuples = λ s k. some (if s k then k ∷ [] else []);
  write_tuples = λ s writes deletes. some (set_written s writes deletes);
  read-stored = set-read;
  write-stored = set-write;
}

abbrev config : HrmConfig
config = record { tenant_id = 1; workspace_id = 3 }

abbrev claims : JwtClaims
claims = record {
  sub = codes "u1";
  email = some (codes "u1@x.vn");
  role = some (codes "HR");
  permissions = codes "CHATBOT_USE" ∷ [];
}

abbrev same_text : Text → Text
same_text s = s

-- A user who was a member.
abbrev site : Site same_text fga
site = record { users = []; tuples = λ k. same_tuple (tuple_key (codes "user:u1") member 3) k }

abbrev site' : Site same_text fga
site' = (provision_identity same_text fga true config claims site).1

granted : role_relation claims.role ≡ some admin
unfolding role_relation text_eq
granted = refl

logged_in : provision_identity same_text fga true config claims site ≡ (ok tt, site')
unfolding provision_identity role_relation text_eq plan_tuple_sync upsert_hrm_user
logged_in = refl

provision-IsSynced_example : IsSynced same_text fga (codes "u1") 3 admin site.tuples site'.tuples
provision-IsSynced_example =
    provision-IsSynced same_text fga true config claims admin site site' granted logged_in

abbrev uuid : Uuid
uuid = record {
  parse_str =
      λ s. elim s [ [] ↦ none | c ∷ s' ↦ if is_empty s' && leb 48 c then some (c - 48) else none ];
  to_string = λ n. (48 + n) ∷ [];
}

abbrev path : Text
path = codes "/tenants/1/workspaces/3"

in_scope : ensure_scope uuid path config ≡ ok tt
unfolding ensure_scope check_pairs split text_eq
in_scope = refl

ensure_scope-AllPairs_example :
    AllPairs (IsAllowed uuid config) (select (λ s. not (is_empty s)) (split b'/' path))
ensure_scope-AllPairs_example = ensure_scope-AllPairs uuid config path in_scope

not_resolved : resolve_workspace_alias_path uuid path config ≡ none
unfolding resolve_workspace_alias_path replace_alias split text_eq
not_resolved = refl

unresolved_path_example : AllPairs IsResolved (split b'/' path)
unresolved_path_example = unresolved_path uuid path config not_resolved

resolved_run :
    resolve_workspace_alias_path uuid (codes "/workspaces/hrm/chat") config
    ≡ some (codes "/workspaces/3/chat")
unfolding resolve_workspace_alias_path replace_alias split text_eq join
resolved_run = refl
