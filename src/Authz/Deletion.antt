-- ===== src/Authz/Deletion.antt =====
-- What `delete_tuples_fga_first` of gmrag_api/src/auth/authz.rs leaves.
use hrm_grag.Authz.{TupleKey, same_key}
use hrm_grag.Prelude.{arith, refl, true, ◌≡◌}
use hrm_grag.Prelude.Text.{text_eq_iff}

pub same_key_refl : (t : TupleKey) → same_key t t ≡ true
same_key_refl t = ground (
  arith,
  (text_eq_iff t.user t.user).1 refl,
  (text_eq_iff t.relation t.relation).1 refl,
  (text_eq_iff t.object t.object).1 refl,
)

pub same_key_eq : (a b : TupleKey) → same_key a b ≡ true → a ≡ b
same_key_eq a b h =
    let user : a.user ≡ b.user = (text_eq_iff a.user b.user).0 (ground (arith, h)) in
    let relation : a.relation ≡ b.relation =
      (text_eq_iff a.relation b.relation).0 (ground (arith, h)) in
    let object : a.object ≡ b.object = (text_eq_iff a.object b.object).0 (ground (arith, h)) in cc
