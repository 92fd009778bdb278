-- ===== src/Acl/Viewers.antt =====
-- An OpenFGA with a list of viewers, and what gmrag_api/src/auth/document_acl.rs answers of two
-- documents.
use hrm_grag.Acl.{DocumentAclRow, Reader, restricted, workspace_default}
use hrm_grag.Acl.Agreement.{viewable_agree, viewable_allowed}
use hrm_grag.Acl.Listing.{Answers, IsUuid, IsWhole}
use hrm_grag.Acl.Viewing.{can_user_view_document, collect_viewable_document_ids}
use hrm_grag.Authz.{
  AuthzError, Client, Object, document_object, http_failure, object_text, platform_object,
  relation_str, tenant_object, workspace_object,
}
use hrm_grag.Db.{err, ok}
use hrm_grag.Db.Atomic.{ok-injective}
use hrm_grag.Hrm.{Relation}
use hrm_grag.Prelude.{
  All, Bool, Bool-cases, List, [], any, ap, arith, false, if◌then◌else◌, inl, inr, length, ltb, map,
  refl, some, suc, sym, true, zero, ℕ, ◌&&◌, ◌++◌, ◌==◌, ◌∙◌, ◌∷◌, ◌≡◌,
}
use hrm_grag.Prelude.Text.{Text, Uuid, codes, strip_prefix, text_eq}

-- The text of an identifier is as many letters.
abbrev unary : ℕ → Text
unary zero = []
unary (suc n) = 105 ∷ unary n

abbrev pub uuid : Uuid
uuid = record { parse_str = λ s. some (length s); to_string = unary }

length-unary : (n : ℕ) → length (unary n) ≡ n
length-unary zero = refl
length-unary (suc n) = omega (arith, length-unary n)

abbrev object_of : ℕ → Text
object_of id = object_text uuid (document_object id)

unary_eq : (i j : ℕ) → text_eq (unary i) (unary j) ≡ i == j
unfolding text_eq
unary_eq zero zero = refl
unary_eq zero (suc j) = ground arith
unary_eq (suc i) zero = ground arith
unary_eq (suc i) (suc j) = ground (arith, unary_eq i j)

object_of_eq : (i j : ℕ) → text_eq (object_of i) (object_of j) ≡ i == j
unfolding text_eq
object_of_eq i j = unary_eq i j

record Viewer : Type 0 where
  user : Text
  relation : Text
  id : ℕ

abbrev viewing : Client
viewing = record {
  Store = List Viewer;
  write_tuples = λ writes deletes viewers. (err http_failure, viewers);
}

abbrev is_viewer : Text → Relation → Viewer → Bool
is_viewer user relation v = text_eq v.user user && text_eq v.relation (relation_str relation)

abbrev sees : Text → Relation → Object → List Viewer → Bool
sees user relation platform_object vs = false
sees user relation (tenant_object i) vs = false
sees user relation (workspace_object i) vs = false
sees user relation (document_object i) vs = any (λ v. is_viewer user relation v && v.id == i) vs

abbrev seen_ids : Text → Relation → List Viewer → List ℕ
seen_ids user relation [] = []
seen_ids user relation (v ∷ vs) =
    let rest = seen_ids user relation vs in
    if is_viewer user relation v && ltb v.id 340282366920938463463374607431768211456
    then v.id ∷ rest
    else rest

abbrev reader : Reader viewing
reader = record {
  check_fga = λ user relation object vs. ok (sees user relation object vs);
  list_objects = λ user relation kind vs. ok (map object_of (seen_ids user relation vs));
}

seen_ids-All :
    (user : Text) (relation : Relation) (vs : List Viewer)
    → All
        (λ raw. (i : ℕ) × IsUuid i × (raw ≡ object_of i))
        (map object_of (seen_ids user relation vs))
seen_ids-All user relation [] = tt
seen_ids-All user relation (v ∷ vs) =
    elim (Bool-cases
      (is_viewer user relation v && ltb v.id 340282366920938463463374607431768211456)) [
        | inl q ↦ rw q ((v.id, ground (arith, q), refl), seen_ids-All user relation vs)
        | inr q ↦ rw q (seen_ids-All user relation vs)
      ]

seen_ids-any :
    (user : Text) (relation : Relation) (id : ℕ) (vs : List Viewer)
    → IsUuid id
    → any (λ raw. text_eq raw (object_of id)) (map object_of (seen_ids user relation vs))
      ≡ any (λ v. is_viewer user relation v && v.id == id) vs
seen_ids-any user relation id [] u = refl
seen_ids-any user relation id (v ∷ vs) u =
    let rest = seen_ids-any user relation id vs u in
    elim (Bool-cases
      (is_viewer user relation v && ltb v.id 340282366920938463463374607431768211456)) [
        | inl q ↦ rw q (ground (arith, q, rest, object_of_eq v.id id))
        | inr q ↦ rw q (ground (arith, q, rest, u))
      ]

answers : Answers viewing reader uuid
answers = record {
  read_back = λ id u. ap some (length-unary id);
  named = λ user relation vs raws h.
      rw (← ok-injective {E = AuthzError} h) (seen_ids-All user relation vs);
  allowed = λ user relation vs raws id b u h c l.
      sym (ok-injective {E = AuthzError} c)
      ∙ sym (seen_ids-any user relation id vs u)
      ∙ (rw (← ok-injective {E = AuthzError} h) at l);
}

whole : (user : Text) (vs : List Viewer) → IsWhole viewing reader uuid user vs
whole user vs relation raws id u h c =
    rw (← ok-injective {E = AuthzError} h)
      (seen_ids-any user relation id vs u ∙ ok-injective {E = AuthzError} c)

-- Of the documents 1, 2 and 3, ann has a share of 2, and bob of 3.
abbrev viewers : List Viewer
viewers =
    record { user = codes "user:ann"; relation = codes "explicit_viewer"; id = 2 }
    ∷ record { user = codes "user:bob"; relation = codes "explicit_viewer"; id = 3 }
    ∷ []

abbrev front : List DocumentAclRow
front = record { document_id = 1; access_mode = workspace_default } ∷ []

abbrev two : DocumentAclRow
two = record { document_id = 2; access_mode = restricted }

abbrev back : List DocumentAclRow
back = record { document_id = 3; access_mode = restricted } ∷ []

seen :
    collect_viewable_document_ids viewing reader uuid (codes "ann") (front ++ (two ∷ back)) viewers
    ≡ ok (1 ∷ 2 ∷ [])
unfolding collect_viewable_document_ids strip_prefix text_eq
seen = refl

granted : can_user_view_document viewing reader uuid (codes "ann") 2 restricted viewers ≡ ok true
unfolding can_user_view_document text_eq
granted = refl

hidden : can_user_view_document viewing reader uuid (codes "ann") 3 restricted viewers ≡ ok false
unfolding can_user_view_document text_eq
hidden = refl

viewable_allowed_example : ◌≡◌ {A = Bool} true true
viewable_allowed_example =
    viewable_allowed viewing reader uuid answers (codes "ann") front two back viewers (1 ∷ 2 ∷ [])
      true (refl, tt) (refl, tt) (omega arith) seen granted refl

viewable_agree_example : any (λ i. i == 2) (1 ∷ 2 ∷ []) ≡ true
viewable_agree_example =
    viewable_agree viewing reader uuid answers (codes "ann") front two back viewers (1 ∷ 2 ∷ [])
      true (refl, tt) (refl, tt) (omega arith) (whole (codes "user:ann") viewers) seen granted
