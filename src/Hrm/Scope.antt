-- ===== src/Hrm/Scope.antt =====
-- What the scope check and the alias of gmrag_api/src/auth/hrm.rs let through.
use hrm_grag.Db.{err, ok}
use hrm_grag.Hrm.{
  HrmConfig, alias_of, candidate_error, check_pairs, ensure_scope, replace_alias,
  resolve_workspace_alias_path, stop_at,
}
use hrm_grag.Prelude.{
  Bool, Bool-cases, List, Option-cases, [], ap, arith, false, if◌then◌else◌, inl, inr, is_empty,
  none, not, refl, select, some, sym, true, ℕ, ◌&&◌, ◌||◌, ◌∙◌, ◌∷◌, ◌≡◌,
}
use hrm_grag.Prelude.Text.{Text, Uuid, codes, split, text_eq}

-- Neighbouring segments that name no tenant and no workspace but the configured ones.
abbrev pub IsAllowed : Uuid → HrmConfig → Text → Text → Type 0
IsAllowed uuid config a b =
    (id : ℕ)
    → uuid.parse_str b ≡ some id
    → (text_eq a (codes "tenants") ≡ true → id ≡ config.tenant_id)
      × (text_eq a (codes "workspaces") ≡ true → id ≡ config.workspace_id)

abbrev pub AllPairs : (Text → Text → Type 0) → List Text → Type 0
AllPairs P [] = Unit
AllPairs P (a ∷ []) = Unit
AllPairs P (a ∷ b ∷ ss) = P a b × AllPairs P (b ∷ ss)

module _ (uuid : Uuid) (config : HrmConfig) where
  pair-IsAllowed :
      (a b : Text) → candidate_error config a (uuid.parse_str b) ≡ none → IsAllowed uuid config a b
  pair-IsAllowed a b h id parsed =
      let passed : candidate_error config a (some id) ≡ none =
        ap (candidate_error config a) (sym parsed) ∙ h in
      ((λ e. ground (arith, passed, e)), (λ e. ground (arith, passed, e)))

  check_pairs-AllPairs :
      (ss : List Text) → check_pairs uuid config ss ≡ ok tt → AllPairs (IsAllowed uuid config) ss
  unfolding check_pairs
  check_pairs-AllPairs [] h = tt
  check_pairs-AllPairs (a ∷ []) h = tt
  check_pairs-AllPairs (a ∷ b ∷ ss) h =
      let rest = check_pairs uuid config (b ∷ ss) in
      elim (Option-cases (candidate_error config a (uuid.parse_str b))) [
        | inl e ↦ (
          pair-IsAllowed a b e,
          check_pairs-AllPairs (b ∷ ss) (ap (λ o. stop_at o rest) (sym e) ∙ h),
        )
        | inr (x, e) ↦ let refused : err x ≡ ok tt = ap (λ o. stop_at o rest) (sym e) ∙ h in cc
      ]

  -- A path that passes the check names no tenant and no workspace but the configured ones: where
  -- a segment after `tenants` or `workspaces` is a UUID, it is theirs. Empty segments do not count.
  pub ensure_scope-AllPairs :
      (path : Text)
      → ensure_scope uuid path config ≡ ok tt
      → AllPairs (IsAllowed uuid config) (select (λ s. not (is_empty s)) (split b'/' path))
  unfolding ensure_scope
  ensure_scope-AllPairs path h = check_pairs-AllPairs _ h

-- No alias is left: no `hrm` stands after `workspaces`.
abbrev pub IsResolved : Text → Text → Type 0
IsResolved a b = (text_eq a (codes "workspaces") && text_eq b (codes "hrm")) ≡ false

replace_alias-AllPairs :
    (target before : Text) (ss : List Text)
    → text_eq target (codes "hrm") ≡ false
    → AllPairs IsResolved (before ∷ (replace_alias target before ss).1)
unfolding replace_alias
replace_alias-AllPairs target before [] h = tt
replace_alias-AllPairs target before (s ∷ ss) h = (
  elim (Bool-cases (text_eq before (codes "workspaces") && text_eq s (codes "hrm"))) [
    | inl e ↦ ground (arith, h, e)
    | inr e ↦ ground (arith, e)
  ],
  replace_alias-AllPairs target
      (if text_eq before (codes "workspaces") && text_eq s (codes "hrm") then target else s) ss h,
)

no_alias :
    (target before : Text) (ss : List Text)
    → (replace_alias target before ss).0 ≡ false
    → AllPairs IsResolved (before ∷ ss)
unfolding replace_alias
no_alias target before [] h = tt
no_alias target before (s ∷ ss) h =
    go (text_eq before (codes "workspaces") && text_eq s (codes "hrm")) refl h
      (no_alias target s ss)
  where
    go :
        (b : Bool)
        → (text_eq before (codes "workspaces") && text_eq s (codes "hrm")) ≡ b
        → (b || (replace_alias target (if b then target else s) ss).0) ≡ false
        → ((replace_alias target s ss).0 ≡ false → AllPairs IsResolved (s ∷ ss))
        → AllPairs IsResolved (before ∷ s ∷ ss)
    go true e r rest = cc
    go false e r rest = (e, rest r)

-- A path that the alias resolution leaves as it is contains no alias.
pub unresolved_path :
    (uuid : Uuid) (path : Text) (config : HrmConfig)
    → resolve_workspace_alias_path uuid path config ≡ none
    → AllPairs IsResolved (split b'/' path)
unfolding resolve_workspace_alias_path
unresolved_path uuid path config h = go (split b'/' path) h
  where
    target : Text
    target = uuid.to_string config.workspace_id

    go : (ss : List Text) → alias_of target ss ≡ none → AllPairs IsResolved ss
    go [] e = tt
    go (s ∷ ss) e = no_alias target s ss (ground (arith, e))
