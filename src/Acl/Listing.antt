-- ===== src/Acl/Listing.antt =====
-- What the lists of one user's relations say of a document, beside what the checks say.
use hrm_grag.Acl.{AclError, Reader, authz_error, format_user, restricted}
use hrm_grag.Acl.Viewing.{
  can_user_view_document, collect_viewable_restricted_document_ids, first_check, joined,
  list_document_relation_ids, parse_all, parse_document_object,
}
use hrm_grag.Authz.{AuthzError, Client, document_object, object_text}
use hrm_grag.Db.{Result, err, ok}
use hrm_grag.Db.Atomic.{ok-injective}
use hrm_grag.Db.Kept.{Result-cases}
use hrm_grag.Hrm.{Relation, bypass_viewer, explicit_viewer}
use hrm_grag.Prelude.{
  ==_iff, All, Bool, Bool-cases, List, [], any, ap, arith, false, inl, inr, refl, some, sym, true,
  ℕ, ◌++◌, ◌<◌, ◌==◌, ◌||◌, ◌∙◌, ◌∷◌, ◌≡◌,
}
use hrm_grag.Prelude.Text.{Text, Uuid, codes, strip_prefix, text_eq, text_eq_iff}
use hrm_grag.Updates.{any-append}

-- A UUID has 128 bits.
abbrev pub IsUuid : ℕ → Type 0
IsUuid id = id < 340282366920938463463374607431768211456

-- What is assumed of UUIDs, that their text is read back, and what OpenFGA documents of a list of
-- objects: it has only objects that a check allows, here under the names that the program gives
-- them. It may leave some out, at its limit of results or its deadline.
pub record Answers (client : Client) (reader : Reader client) (uuid : Uuid) : Type 0 where
  pub read_back : (id : ℕ) → IsUuid id → uuid.parse_str (uuid.to_string id) ≡ some id
  pub named :
      (user : Text) (relation : Relation) (s : client.Store) (raws : List Text)
      → reader.list_objects user relation (codes "document") s ≡ ok raws
      → All (λ raw. (id : ℕ) × IsUuid id × (raw ≡ object_text uuid (document_object id))) raws
  pub allowed :
      (user : Text) (relation : Relation) (s : client.Store) (raws : List Text) (id : ℕ) (b : Bool)
      → IsUuid id
      → reader.list_objects user relation (codes "document") s ≡ ok raws
      → reader.check_fga user relation (document_object id) s ≡ ok b
      → any (λ raw. text_eq raw (object_text uuid (document_object id))) raws ≡ true
      → b ≡ true

-- The lists of one user's documents are not cut off at the limit or the deadline.
abbrev pub IsWhole : (client : Client) → Reader client → Uuid → Text → client.Store → Type 0
IsWhole client reader uuid user s =
    (relation : Relation) (raws : List Text) (id : ℕ)
    → IsUuid id
    → reader.list_objects user relation (codes "document") s ≡ ok raws
    → reader.check_fga user relation (document_object id) s ≡ ok true
    → any (λ raw. text_eq raw (object_text uuid (document_object id))) raws ≡ true

-- What a list says of a document, beside the check: listed ones are allowed, and allowed ones are
-- listed under the condition `W`.
abbrev pub Agrees : Type 0 → Bool → Bool → Type 0
Agrees W listed checked = (listed ≡ true → checked ≡ true) × (W → checked ≡ true → listed ≡ true)

module _ (client : Client) (reader : Reader client) (uuid : Uuid)
    (answers : Answers client reader uuid) where
  abbrev object_of : ℕ → Text
  object_of id = object_text uuid (document_object id)

  parse-object_of : (id : ℕ) → IsUuid id → parse_document_object uuid (object_of id) ≡ ok id
  unfolding parse_document_object strip_prefix
  parse-object_of id u = rw (answers.read_back id u, parse_document_object, strip_prefix) refl

  pub same_object : (i j : ℕ) → IsUuid i → IsUuid j → text_eq (object_of i) (object_of j) ≡ i == j
  same_object i j u v = elim (Bool-cases (text_eq (object_of i) (object_of j))) [
    | inl e ↦
        let same : ok i ≡ ok j =
          sym (parse-object_of i u)
          ∙ ap (parse_document_object uuid) ((text_eq_iff (object_of i) (object_of j)).0 e)
          ∙ parse-object_of j v in
        e ∙ sym ((==_iff i j).1 (ok-injective same))
    | inr e ↦ elim (Bool-cases (i == j)) [
      | inl q ↦
          let same =
            (text_eq_iff (object_of i) (object_of j)).1 (ap object_of ((==_iff i j).0 q)) in
          ground (arith, same, e)
      | inr q ↦ e ∙ sym q
    ]
  ]

  parse_all-any :
      (id : ℕ) (raws : List Text) (ids : List ℕ)
      → IsUuid id
      → All (λ raw. (i : ℕ) × IsUuid i × (raw ≡ object_of i)) raws
      → parse_all uuid raws ≡ ok ids
      → any (λ i. i == id) ids ≡ any (λ raw. text_eq raw (object_of id)) raws
  parse_all-any id [] ids v n h = rw (← ok-injective h) refl
  parse_all-any id (raw ∷ raws) ids v n h =
      let (i, u, e) = n.0 in
      let parsed : parse_document_object uuid raw ≡ ok i =
        ap (parse_document_object uuid) e ∙ parse-object_of i u in
      elim (Result-cases (parse_all uuid raws)) [
        | inl (x, q) ↦ let contrary : err x ≡ ok ids = rw (parsed, q, parse_all) at h in cc
        | inr (more, q) ↦
            let whole : ok (i ∷ more) ≡ ok ids = rw (parsed, q, parse_all) at h in
            let rest = parse_all-any id raws more v n.1 q in
            rw (← ok-injective whole, e, same_object i id u v, rest) refl
      ]

  -- What one relation's list says of one document.
  listed-Agrees :
      (user_id : Text) (relation : Relation) (s : client.Store) (ids : List ℕ) (id : ℕ) (b : Bool)
      → IsUuid id
      → list_document_relation_ids client reader uuid user_id relation s ≡ ok ids
      → reader.check_fga (format_user user_id) relation (document_object id) s ≡ ok b
      → Agrees (IsWhole client reader uuid (format_user user_id) s) (any (λ i. i == id) ids) b
  unfolding list_document_relation_ids
  listed-Agrees user_id relation s ids id b v h checked =
      let user = format_user user_id in
      elim (Result-cases (reader.list_objects user relation (codes "document") s)) [
        | inl (x, q) ↦
            let contrary : err (authz_error x) ≡ ok ids = rw (q, list_document_relation_ids) at h in
            cc
        | inr (raws, q) ↦
            let same =
              parse_all-any id raws ids v (answers.named user relation s raws q)
                (rw (q, list_document_relation_ids) at h) in
            (
              λ l. answers.allowed user relation s raws id b v q checked (sym same ∙ l),
              λ whole yes. same ∙ whole relation raws id v q (checked ∙ ap (λ c. ok c) yes),
            )
      ]

  -- A check of one relation and then of the other, beside what their lists say.
  checked_either :
      (W : Type 0) (first second : Result AuthzError Bool) (m n b : Bool)
      → ((c : Bool) → first ≡ ok c → Agrees W m c)
      → ((c : Bool) → second ≡ ok c → Agrees W n c)
      → first_check client reader uuid first second ≡ ok b
      → Agrees W (m || n) b
  checked_either W (err e) second m n b f g h = let contrary : err (authz_error e) ≡ ok b = h in cc
  checked_either W (ok true) second m n b f g h =
      let same = ok-injective {E = AclError} {a = true} {b = b} h in
      (λ l. sym same, λ w y. ground (arith, (f true refl).1 w refl))
  checked_either W (ok false) (err e) m n b f g h =
      let contrary : err (authz_error e) ≡ ok b = h in cc
  checked_either W (ok false) (ok c) m n b f g h =
      let same = ok-injective {E = AclError} {a = c} {b = b} h in
      (
        λ l. ground (arith, l, (f false refl).0, (g c refl).0, same),
        λ w y. ground (arith, (g c refl).1 w (same ∙ y)),
      )

  joined-ok :
      (x y : Result AclError (List ℕ)) (ids : List ℕ)
      → joined client reader uuid x y ≡ ok ids
      → (mine more : List ℕ) × (x ≡ ok mine) × (y ≡ ok more) × (ids ≡ mine ++ more)
  joined-ok (err e) y ids h = let contrary : err e ≡ ok ids = h in cc
  joined-ok (ok mine) (err e) ids h = let contrary : err e ≡ ok ids = h in cc
  joined-ok (ok mine) (ok more) ids h = (mine, more, refl, refl, sym (ok-injective h))

  -- Both relations' lists together.
  pub restricted-Agrees :
      (user_id : Text) (s : client.Store) (ids : List ℕ) (id : ℕ) (b : Bool)
      → IsUuid id
      → collect_viewable_restricted_document_ids client reader uuid user_id s ≡ ok ids
      → can_user_view_document client reader uuid user_id id restricted s ≡ ok b
      → Agrees (IsWhole client reader uuid (format_user user_id) s) (any (λ i. i == id) ids) b
  unfolding collect_viewable_restricted_document_ids can_user_view_document
  restricted-Agrees user_id s ids id b v h checked =
      let (mine, more, q, q', e) = joined-ok _ _ ids h in
      let user = format_user user_id in
      let object = document_object id in
      rw (e, any-append id mine more)
        (checked_either (IsWhole client reader uuid user s)
          (reader.check_fga user explicit_viewer object s)
          (reader.check_fga user bypass_viewer object s) (any (λ i. i == id) mine)
          (any (λ i. i == id) more) b (λ c. listed-Agrees user_id explicit_viewer s mine id c v q)
          (λ c. listed-Agrees user_id bypass_viewer s more id c v q') checked)
