-- ===== src/Authz/Listed.antt =====
-- An OpenFGA whose tuples are a list: the parameters of gmrag_api/src/auth/authz.rs in the tests.
use hrm_grag.Authz.{AuthzError, Client, Configured, Laws, TupleKey, open_fga, same_key}
use hrm_grag.Authz.Deletion.{same_key_eq}
use hrm_grag.Db.{Result, err, ok}
use hrm_grag.Prelude.{
  Bool, Bool-cases, List, [], any, ap, arith, false, inl, inr, not, refl, select, true, ℕ, ◌&&◌,
  ◌++◌, ◌||◌, ◌∙◌, ◌∷◌, ◌≡◌,
}
use hrm_grag.Prelude.Text.{Text, codes, contains}

abbrev pub has : List TupleKey → TupleKey → Bool
has tuples k = any (λ t. same_key t k) tuples

-- The tuples that the request does not delete, and those that it writes.
abbrev changed : List TupleKey → List TupleKey → List TupleKey → List TupleKey
changed writes deletes tuples = writes ++ select (λ t. not (has deletes t)) tuples

abbrev missing_message : Text
missing_message = codes "cannot delete a tuple which does not exist"

abbrev there_message : Text
there_message = codes "cannot write a tuple which already exists"

-- A tuple to delete is missing, or one to write is there, or the request is carried out.
abbrev reply : Bool → Bool → List TupleKey → List TupleKey → Result AuthzError Unit × List TupleKey
reply true exists old new = (err (open_fga 400 missing_message), old)
reply false true old new = (err (open_fga 400 there_message), old)
reply false false old new = (ok tt, new)

abbrev pub client : Client
client = record {
  Store = List TupleKey;
  write_tuples = λ writes deletes tuples.
      reply (any (λ t. not (has tuples t)) deletes) (any (has tuples) writes) tuples
        (changed writes deletes tuples);
}

reply-ok :
    (absent exists : Bool) (old new : List TupleKey)
    → (reply absent exists old new).0 ≡ ok tt
    → (reply absent exists old new).1 ≡ new
reply-ok true exists old new h =
    let contrary : ◌≡◌ {A = Result AuthzError Unit} (err (open_fga 400 missing_message)) (ok tt) =
      h in
    cc
reply-ok false true old new h =
    let contrary : ◌≡◌ {A = Result AuthzError Unit} (err (open_fga 400 there_message)) (ok tt) =
      h in
    cc
reply-ok false false old new h = refl

reply-All :
    (absent exists : Bool) (old new : List TupleKey) (P : List TupleKey → Type 0)
    → P old
    → P new
    → P (reply absent exists old new).1
reply-All true exists old new P p q = p
reply-All false true old new P p q = p
reply-All false false old new P p q = q

reply-missing :
    (here : Bool) (old new : List TupleKey) (status : ℕ) (body : Text)
    → (reply (not here || false) false old new).0 ≡ err (open_fga status body)
    → (here ≡ false)
      × ((reply (not here || false) false old new).1 ≡ old)
      × (missing_message ≡ body)
reply-missing true old new status body h =
    let contrary : ◌≡◌ {A = Result AuthzError Unit} (ok tt) (err (open_fga status body)) = h in cc
reply-missing false old new status body h =
    let same : ◌≡◌ {A = Result AuthzError Unit} (err (open_fga 400 missing_message))
        (err (open_fga status body)) =
      h in
    (refl, refl, cc)

reply-there :
    (here : Bool) (old new : List TupleKey) (status : ℕ) (body : Text)
    → (reply false (here || false) old new).0 ≡ err (open_fga status body)
    → (here ≡ true) × ((reply false (here || false) old new).1 ≡ old)
reply-there true old new status body h = (refl, refl)
reply-there false old new status body h =
    let contrary : ◌≡◌ {A = Result AuthzError Unit} (ok tt) (err (open_fga status body)) = h in cc

has-append : (xs ys : List TupleKey) (k : TupleKey) → has (xs ++ ys) k ≡ has xs k || has ys k
has-append [] ys k = refl
has-append (x ∷ xs) ys k = ground (arith, has-append xs ys k)

has-select :
    (deletes tuples : List TupleKey) (k : TupleKey)
    → has (select (λ t. not (has deletes t)) tuples) k ≡ has tuples k && not (has deletes k)
has-select deletes [] k = refl
has-select deletes (t ∷ tuples) k = elim (Bool-cases (same_key t k)) [
  | inl e ↦
      let same : t ≡ k = same_key_eq t k e in
      rw same (ground (arith, has-select deletes tuples k, rw same at e))
  | inr e ↦ ground (arith, has-select deletes tuples k, e)
]

stored_after :
    (writes deletes tuples : List TupleKey) (k : TupleKey)
    → has (changed writes deletes tuples) k ≡ has writes k || (has tuples k && not (has deletes k))
stored_after writes deletes tuples k = ground (
  arith,
  has-append writes (select (λ t. not (has deletes t)) tuples) k,
  has-select deletes tuples k,
)

pub laws : Laws client
laws = record {
  stored = has;
  done = λ writes deletes tuples k h.
      rw
        (reply-ok (any (λ t. not (has tuples t)) deletes) (any (has tuples) writes) tuples
          (changed writes deletes tuples) h)
        (stored_after writes deletes tuples k);
  untouched = λ writes deletes tuples k h.
      reply-All (any (λ t. not (has tuples t)) deletes) (any (has tuples) writes) tuples
        (changed writes deletes tuples) (λ after. has after k ≡ has tuples k) refl
        (ground (arith, stored_after writes deletes tuples k, h, has-append writes deletes k));
  missing = λ t tuples status body q said.
      let (gone, same, m) =
        reply-missing (has tuples t) tuples (changed [] (t ∷ []) tuples) status body q in
      ap (λ x. has x t) same ∙ gone;
  there = λ t tuples status body q said.
      let (here, same) =
        reply-there (has tuples t) tuples (changed (t ∷ []) [] tuples) status body q in
      ap (λ x. has x t) same ∙ here;
}

pub configured : Configured client
unfolding contains
configured = record {
  only_missing = λ t tuples status body q said.
      rw (← (reply-missing (has tuples t) tuples (changed [] (t ∷ []) tuples) status body q).2)
        refl;
}
