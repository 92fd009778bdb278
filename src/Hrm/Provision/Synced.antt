-- ===== src/Hrm/Provision/Synced.antt =====
-- After a login that succeeds, the user has the relation of the token's role and not the other.
use hrm_grag.Db.{Result, err, ok}
use hrm_grag.Hrm.{HrmConfig, JwtClaims, Relation, role_relation}
use hrm_grag.Hrm.Provision.{
  Fga, HrmProvisionError, Site, TupleKey, apply_plan, authz, invalid_role, other_of,
  plan_tuple_sync, provision_as, provision_identity, same_relation, same_tuple, sync, sync_read,
  tuple_key,
}
use hrm_grag.Prelude.{
  Bool, List, Option, any, ap, arith, false, none, not, refl, some, sym, true, ℕ, ◌&&◌, ◌++◌, ◌||◌,
  ◌∙◌, ◌≡◌,
}
use hrm_grag.Prelude.Text.{Text, codes, text_eq, text_eq_iff}

text_eq-same : (k : Text) → text_eq k k ≡ true
text_eq-same k = (text_eq_iff k k).1 refl

module _ (normalize_email : Text → Text) (fga : Fga) where
  -- The stored tuples of the user and the workspace after the sync, and all the others.
  abbrev pub IsSynced : Text → ℕ → Relation → fga.Store → fga.Store → Type 0
  IsSynced sub ws r s s' =
      let desired = tuple_key (codes "user:" ++ sub) r ws in
      let other = tuple_key (codes "user:" ++ sub) (other_of normalize_email fga r) ws in
      (fga.stored s' desired ≡ true)
      × (fga.stored s' other ≡ false)
      × ((k : TupleKey)
          → same_tuple desired k ≡ false
          → same_tuple other k ≡ false
          → fga.stored s' k ≡ fga.stored s k)

  written :
      (site site' : Site normalize_email fga) (writes deletes : List TupleKey)
      → ◌≡◌ {A = Result HrmProvisionError Unit × Site normalize_email fga}
          (elim (fga.write_tuples site.tuples writes deletes) [
            | none ↦ (err authz, site)
            | some tuples ↦ (ok tt, record site { tuples = tuples })
          ])
          (ok tt, site')
      → (k : TupleKey)
      → fga.stored site'.tuples k ≡ (
          any (λ tuple. same_tuple tuple k) writes
          || (fga.stored site.tuples k && not (any (λ tuple. same_tuple tuple k) deletes)))
  written site site' writes deletes h k = go (fga.write_tuples site.tuples writes deletes) refl h
    where
      go :
          (o : Option fga.Store)
          → fga.write_tuples site.tuples writes deletes ≡ o
          → ◌≡◌ {A = Result HrmProvisionError Unit × Site normalize_email fga}
              (elim o [
                | none ↦ (err authz, site)
                | some tuples ↦ (ok tt, record site { tuples = tuples })
              ])
              (ok tt, site')
          → fga.stored site'.tuples k ≡ (
              any (λ tuple. same_tuple tuple k) writes
              || (fga.stored site.tuples k && not (any (λ tuple. same_tuple tuple k) deletes)))
      go none e h = cc
      go (some tuples) e h =
          let stored_there : tuples ≡ site'.tuples = ap (λ x. x.1.tuples) h in
          rw (← stored_there) (fga.write-stored site.tuples writes deletes tuples k e)

  plan-IsSynced :
      (sub : Text) (ws : ℕ) (r : Relation) (dp op : Bool) (site site' : Site normalize_email fga)
      → same_relation r (other_of normalize_email fga r) ≡ false
      → fga.stored site.tuples (tuple_key (codes "user:" ++ sub) r ws) ≡ dp
      → fga.stored site.tuples
          (tuple_key (codes "user:" ++ sub) (other_of normalize_email fga r) ws)
        ≡ op
      → apply_plan normalize_email fga
          (plan_tuple_sync (codes "user:" ++ sub) ws r (other_of normalize_email fga r) dp op)
          site
        ≡ (ok tt, site')
      → IsSynced sub ws r site.tuples site'.tuples
  unfolding plan_tuple_sync
  plan-IsSynced sub ws r true false site site' differ d o h =
      let same : site ≡ site' = ap (λ x. x.1) h in rw (← same) (d, o, λ k _ _. refl)
  plan-IsSynced sub ws r true true site site' differ d o h =
      let w = written site site' _ _ h in
      let kd = tuple_key (codes "user:" ++ sub) r ws in
      let ko = tuple_key (codes "user:" ++ sub) (other_of normalize_email fga r) ws in
      let self = text_eq-same (codes "user:" ++ sub) in
      (
        ground (arith, w kd, d, self),
        ground (arith, w ko, self),
        λ k n n'. ground (arith, w k, n, n'),
      )
  plan-IsSynced sub ws r false false site site' differ d o h =
      let w = written site site' _ _ h in
      let kd = tuple_key (codes "user:" ++ sub) r ws in
      let ko = tuple_key (codes "user:" ++ sub) (other_of normalize_email fga r) ws in
      let self = text_eq-same (codes "user:" ++ sub) in
      (ground (arith, w kd, self), ground (arith, w ko, o), λ k n n'. ground (arith, w k, n, n'))
  plan-IsSynced sub ws r false true site site' differ d o h =
      let w = written site site' _ _ h in
      let kd = tuple_key (codes "user:" ++ sub) r ws in
      let ko = tuple_key (codes "user:" ++ sub) (other_of normalize_email fga r) ws in
      let self = text_eq-same (codes "user:" ++ sub) in
      (ground (arith, w kd, self), ground (arith, w ko, self), λ k n n'. ground (arith, w k, n, n'))

  role-relation :
      (role : Option Text) (r : Relation)
      → role_relation role ≡ some r
      → same_relation r (other_of normalize_email fga r) ≡ false
  unfolding role_relation
  role-relation none r h = cc
  role-relation (some role) r h = ground arith

  sync-IsSynced :
      (ws : ℕ) (sub : Text) (r : Relation) (site site' : Site normalize_email fga)
      → same_relation r (other_of normalize_email fga r) ≡ false
      → sync normalize_email fga ws (codes "user:" ++ sub) r site ≡ (ok tt, site')
      → IsSynced sub ws r site.tuples site'.tuples
  sync-IsSynced ws sub r site site' differ h =
      go (fga.read_tuples site.tuples kd) (fga.read_tuples site.tuples ko) refl refl h
    where
      kd : TupleKey
      kd = tuple_key (codes "user:" ++ sub) r ws

      ko : TupleKey
      ko = tuple_key (codes "user:" ++ sub) (other_of normalize_email fga r) ws

      go :
          (o1 o2 : Option (List TupleKey))
          → fga.read_tuples site.tuples kd ≡ o1
          → fga.read_tuples site.tuples ko ≡ o2
          → sync_read normalize_email fga ws (codes "user:" ++ sub) r o1 o2 site ≡ (ok tt, site')
          → IsSynced sub ws r site.tuples site'.tuples
      go none o2 e1 e2 h = cc
      go (some ds) none e1 e2 h = cc
      go (some ds) (some os) e1 e2 h =
          plan-IsSynced sub ws r _ _ site site' differ (sym (fga.read-stored site.tuples kd ds e1))
            (sym (fga.read-stored site.tuples ko os e2)) h

  -- A login that succeeds leaves the user with the relation of the token's role on the HRM
  -- workspace and without the other one, whatever the user had before, and touches no tuple of
  -- anyone else.
  pub provision-IsSynced :
      (database_up : Bool) (config : HrmConfig) (claims : JwtClaims) (r : Relation)
      (site site' : Site normalize_email fga)
      → role_relation claims.role ≡ some r
      → provision_identity normalize_email fga database_up config claims site ≡ (ok tt, site')
      → IsSynced claims.sub config.workspace_id r site.tuples site'.tuples
  unfolding provision_identity
  provision-IsSynced database_up config claims r site site' granted h =
      let differ = role-relation claims.role r granted in
      let done =
        ap
          (λ (o : Option Relation).
            provision_as normalize_email fga o database_up config claims site)
          (sym granted)
        ∙ h in
      by_database database_up differ done
    where
      by_database :
          (up : Bool)
          → same_relation r (other_of normalize_email fga r) ≡ false
          → provision_as normalize_email fga (some r) up config claims site ≡ (ok tt, site')
          → IsSynced claims.sub config.workspace_id r site.tuples site'.tuples
      by_database false differ e = cc
      by_database true differ e = sync-IsSynced config.workspace_id claims.sub r _ site' differ e

  -- A token without a supported role changes nothing: neither the user's row nor a tuple.
  pub provision-invalid_role :
      (database_up : Bool) (config : HrmConfig) (claims : JwtClaims)
      (site : Site normalize_email fga)
      → role_relation claims.role ≡ none
      → provision_identity normalize_email fga database_up config claims site
        ≡ (err invalid_role, site)
  unfolding provision_identity
  provision-invalid_role database_up config claims site refused =
      ap
        (λ (o : Option Relation). provision_as normalize_email fga o database_up config claims site)
        refused
