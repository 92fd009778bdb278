-- ===== src/Storage/Prefix.antt =====
-- The prefix of a workspace against the keys of its documents, and against everyone else's. A UUID
-- is printed with hexadecimal digits and dashes, in 36 characters, and no two alike.
use hrm_grag.Prelude.{
  All, All-append, Bool, Bool-cases, [], ap, arith, false, inl, inr, is_empty, leb, length, none,
  refl, sym, true, ℕ, ◌&&◌, ◌++◌, ◌<◌, ◌==◌, ◌||◌, ◌↔◌, ◌∙◌, ◌∷◌, ◌≡◌,
}
use hrm_grag.Prelude.Text.{
  Text, Uuid, codes, contains, is_whitespace, starts_with, strip_prefix, trim, trim_end, trim_start,
}
use hrm_grag.Storage.Cleanup.{build_workspace_prefix}
use hrm_grag.Storage.Client.{build_original_document_object_key}
use hrm_grag.Storage.Rows.{is_escaping, validate_prefix}
use hrm_grag.Updates.{All-of_All}

-- The numbers below it are the UUIDs.
abbrev pub uuid_bound : ℕ
uuid_bound = 340282366920938463463374607431768211456

abbrev pub is_hex : ℕ → Bool
is_hex c = (leb 48 c && leb c 57) || (leb 97 c && leb c 102) || c == 45

pub record IsPrinted (uuid : Uuid) : Type 0 where
  pub length_36 : (id : ℕ) → length (uuid.to_string id) ≡ 36
  pub hex : (id : ℕ) → All (λ c. is_hex c ≡ true) (uuid.to_string id)
  pub injective :
      (i j : ℕ) → i < uuid_bound → j < uuid_bound → uuid.to_string i ≡ uuid.to_string j → i ≡ j

starts_with-cons : (c d : ℕ) (p s : Text) → starts_with (c ∷ p) (d ∷ s) ≡ c == d && starts_with p s
unfolding starts_with strip_prefix
starts_with-cons c d p s = elim (Bool-cases (c == d)) [
  | inl e ↦ rw (e, starts_with, strip_prefix) refl
  | inr e ↦ rw (e, starts_with, strip_prefix) refl
]

starts_with-nil : (s : Text) → starts_with [] s ≡ true
unfolding starts_with strip_prefix
starts_with-nil s = refl

starts_with_same : (x y y' : Text) → starts_with y y' ≡ true → starts_with (x ++ y) (x ++ y') ≡ true
starts_with_same [] y y' h = h
starts_with_same (c ∷ x) y y' h =
    rw (starts_with-cons c c (x ++ y) (x ++ y')) (ground (arith, starts_with_same x y y' h))

-- Texts of the same length are the same where one of them, with something after it, is a prefix.
starts_with_split :
    (x x' y y' : Text)
    → length x ≡ length x'
    → starts_with (x ++ y) (x' ++ y') ≡ true
    → (x ≡ x') × (starts_with y y' ≡ true)
starts_with_split [] [] y y' l h = (refl, h)
starts_with_split [] (d ∷ x') y y' l h = ground arith
starts_with_split (c ∷ x) [] y y' l h = ground arith
starts_with_split (c ∷ x) (d ∷ x') y y' l h =
    let both : c == d && starts_with (x ++ y) (x' ++ y') ≡ true =
      sym (starts_with-cons c d (x ++ y) (x' ++ y')) ∙ h in
    let rest = starts_with_split x x' y y' (ground arith) (ground (arith, both)) in
    let same : c ≡ d = ground (arith, both) in (rw (same, rest.0) refl, rest.1)

-- Characters that the checks of a prefix pass over.
abbrev pub IsPlain : ℕ → Type 0
IsPlain c = (is_whitespace c ≡ false) × ((c == 46) ≡ false) × ((c == 92) ≡ false)

trim_end_plain : (s : Text) → All IsPlain s → trim_end s ≡ s
unfolding trim_end
trim_end_plain [] h = refl
trim_end_plain (c ∷ s) h = rw (trim_end_plain s h.1) (ground (arith, h.0.0))

trim_start_plain : (s : Text) → All IsPlain s → trim_start s ≡ s
unfolding trim_start
trim_start_plain [] h = refl
trim_start_plain (c ∷ s) h = ground (arith, h.0.0)

trim_plain : (s : Text) → All IsPlain s → trim s ≡ s
unfolding trim
trim_plain s h = ap trim_end (trim_start_plain s h) ∙ trim_end_plain s h

contains_absent : (d : ℕ) (p s : Text) → All (λ c. (c == d) ≡ false) s → contains (d ∷ p) s ≡ false
unfolding contains
contains_absent d p [] h = refl
contains_absent d p (c ∷ s) h =
    ground (arith, h.0, starts_with-cons d c p s, contains_absent d p s h.1)

hex-IsPlain : (c : ℕ) → is_hex c ≡ true → IsPlain c
unfolding is_whitespace
hex-IsPlain c h = ground arith

module _ (uuid : Uuid) (printed : IsPrinted uuid) where
  document_key_below :
      (t w d : ℕ)
      → starts_with
          (build_workspace_prefix uuid t w)
          (build_original_document_object_key uuid t w d)
        ≡ true
  unfolding build_workspace_prefix build_original_document_object_key
  document_key_below t w d =
      let file = codes "/documents/" ++ (uuid.to_string d ++ codes "/original.pdf") in
      let rest = codes "documents/" ++ (uuid.to_string d ++ codes "/original.pdf") in
      let slash : starts_with (codes "/") file ≡ true =
        starts_with_same (codes "/") [] rest (starts_with-nil rest) in
      starts_with_same (codes "tenants/") _ _ (
        starts_with_same (uuid.to_string t) _ _ (
          starts_with_same (codes "/workspaces/") _ _
            (starts_with_same (uuid.to_string w) (codes "/") file slash)))

  document_key_apart :
      (t w t' w' d : ℕ)
      → t < uuid_bound
      → w < uuid_bound
      → t' < uuid_bound
      → w' < uuid_bound
      → starts_with
          (build_workspace_prefix uuid t w)
          (build_original_document_object_key uuid t' w' d)
        ≡ true
      → (t ≡ t') × (w ≡ w')
  unfolding build_workspace_prefix build_original_document_object_key
  document_key_apart t w t' w' d lt lw lt' lw' h =
      let file = codes "/documents/" ++ (uuid.to_string d ++ codes "/original.pdf") in
      let at_tenant =
        starts_with_split (codes "tenants/") (codes "tenants/")
          (uuid.to_string t ++ (codes "/workspaces/" ++ (uuid.to_string w ++ codes "/")))
          (uuid.to_string t' ++ (codes "/workspaces/" ++ (uuid.to_string w' ++ file))) refl h in
      let at_workspaces =
        starts_with_split (uuid.to_string t) (uuid.to_string t')
          (codes "/workspaces/" ++ (uuid.to_string w ++ codes "/"))
          (codes "/workspaces/" ++ (uuid.to_string w' ++ file))
          (printed.length_36 t ∙ sym (printed.length_36 t')) at_tenant.1 in
      let at_id =
        starts_with_split (codes "/workspaces/") (codes "/workspaces/")
          (uuid.to_string w ++ codes "/") (uuid.to_string w' ++ file) refl at_workspaces.1 in
      let at_end =
        starts_with_split (uuid.to_string w) (uuid.to_string w') (codes "/") file
          (printed.length_36 w ∙ sym (printed.length_36 w')) at_id.1 in
      (printed.injective t t' lt lt' at_workspaces.0, printed.injective w w' lw lw' at_end.0)

  uuid-All : (id : ℕ) → All IsPlain (uuid.to_string id)
  uuid-All id = All-of_All _ IsPlain _ hex-IsPlain (printed.hex id)

  prefix-All : (t w : ℕ) → All IsPlain (build_workspace_prefix uuid t w)
  unfolding build_workspace_prefix is_whitespace
  prefix-All t w =
      let literal : All IsPlain (codes "/workspaces/") = ground arith in
      All-append IsPlain (codes "tenants/") _ (ground arith) (
        All-append IsPlain (uuid.to_string t) _ (uuid-All t) (
          All-append IsPlain (codes "/workspaces/") _ literal
            (All-append IsPlain (uuid.to_string w) (codes "/") (uuid-All w) (ground arith))))

  prefix_shape :
      (t w : ℕ)
      → (is_empty (build_workspace_prefix uuid t w) ≡ false)
        × (starts_with (codes "/") (build_workspace_prefix uuid t w) ≡ false)
        × (starts_with (codes "tenants/") (build_workspace_prefix uuid t w) ≡ true)
  unfolding build_workspace_prefix
  prefix_shape t w =
      let rest = uuid.to_string t ++ (codes "/workspaces/" ++ (uuid.to_string w ++ codes "/")) in
      (
        refl,
        starts_with-cons 47 116 [] (codes "enants/" ++ rest),
        starts_with_same (codes "tenants/") [] rest (starts_with-nil rest),
      )

  -- The prefix of every workspace passes the checks of the outbox, so that no row that a deleted
  -- workspace leaves is poison for its prefix.
  pub workspace_prefix_valid : (t w : ℕ) → validate_prefix (build_workspace_prefix uuid t w) ≡ none
  unfolding validate_prefix is_escaping
  workspace_prefix_valid t w =
      let prefix = build_workspace_prefix uuid t w in
      let plain = prefix-All t w in
      let shape = prefix_shape t w in
      let dots : contains (codes "..") prefix ≡ false =
        contains_absent 46 (codes ".") prefix
          (All-of_All IsPlain (λ c. (c == 46) ≡ false) prefix (λ c h. h.1) plain) in
      let backslashes : contains (codes "\\") prefix ≡ false =
        contains_absent 92 [] prefix
          (All-of_All IsPlain (λ c. (c == 92) ≡ false) prefix (λ c h. h.2) plain) in
      rw (trim_plain prefix plain, shape.0, shape.1, dots, backslashes, shape.2) refl

  -- The prefix of a workspace is a prefix of the key of a document's file exactly if the document is
  -- in this workspace of this tenant. UUIDs are printed without loss, in 36 characters.
  pub workspace_prefix_exact :
      (t w t' w' d : ℕ)
      → t < uuid_bound
      → w < uuid_bound
      → t' < uuid_bound
      → w' < uuid_bound
      → (starts_with
            (build_workspace_prefix uuid t w)
            (build_original_document_object_key uuid t' w' d)
          ≡ true)
        ↔ ((t ≡ t') × (w ≡ w'))
  workspace_prefix_exact t w t' w' d lt lw lt' lw' = (
    document_key_apart t w t' w' d lt lw lt' lw',
    λ same. rw (same.0, same.1) (document_key_below t' w' d),
  )
