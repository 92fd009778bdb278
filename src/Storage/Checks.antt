-- ===== src/Storage/Checks.antt =====
-- An S3 whose objects are a list, and runs of gmrag_api/src/storage over it.
use hrm_grag.Db.{SqlError, World, err, ok}
use hrm_grag.Db.Atomic.{ok-injective}
use hrm_grag.Outbox.{unwrap_or}
use hrm_grag.Outbox.Run.{process_row}
use hrm_grag.Outbox.Table.{row_pending}
use hrm_grag.Prelude.{
  All, Bool, Bool-cases, List, Option, [], any, ap, arith, false, if◌then◌else◌, inl, inr, leb,
  length, none, not, refl, select, some, suc, sym, true, zero, ℕ, ◌%◌, ◌&&◌, ◌*◌, ◌+◌, ◌/◌, ◌<◌,
  ◌↔◌, ◌∙◌, ◌∷◌, ◌≡◌,
}
use hrm_grag.Prelude.Int.{pos}
use hrm_grag.Prelude.Text.{
  Text, Uuid, codes, contains, starts_with, text_eq, text_eq_iff, to_ascii_lowercase, trim,
}
use hrm_grag.Storage.Cleanup.{
  StorageCleanupOptions, Tables, build_workspace_prefix, cleanup_prefix_in_bucket, completed,
}
use hrm_grag.Storage.Client.{
  Page, S3, build_original_document_object_key, delete_objects_in_bucket, keys_of,
}
use hrm_grag.Storage.Deletion.{Laws}
use hrm_grag.Storage.Listing.{Paging, list_objects_in_bucket}
use hrm_grag.Storage.Orphans.{Point, before_deletion, before_listing, before_lookups, before_marks}
use hrm_grag.Storage.Prefix.{IsPrinted, is_hex, workspace_prefix_exact, workspace_prefix_valid}
use hrm_grag.Storage.Processor.{process_single_row}
use hrm_grag.Storage.Rows.{
  Codec, DeleteObjectPayload, DeletePrefixPayload, Outbox, Row, is_escaping, validate_prefix,
}
use hrm_grag.Storage.Safety.{Asks, processed-Asks}
use hrm_grag.Storage.Settings.{default_config, parse}

-- Pairs of a bucket and a key.
abbrev Objects : Type 0
Objects = List (Text × Text)

abbrev is_at : Text → Text → Text × Text → Bool
is_at bucket key x = text_eq bucket x.0 && text_eq key x.1

abbrev below : Text → Option Text → Objects → List (Option Text)
below bucket prefix [] = []
below bucket prefix (x ∷ xs) =
    let rest = below bucket prefix xs in
    if text_eq bucket x.0 && starts_with (unwrap_or [] prefix) x.1 then some x.1 ∷ rest else rest

abbrev is_named : Text → List Text → Text × Text → Bool
is_named bucket keys x = text_eq bucket x.0 && any (text_eq x.1) keys

abbrev s3 : S3
s3 = record {
  Objects = Objects;
  SdkError = Unit;
  service_code = λ e. none;
  show_error = λ e. [];
  head_bucket = λ bucket o. (ok tt, o);
  put_object = λ bucket key bytes content_type o. (ok none, (bucket, key) ∷ o);
  get_object = λ bucket key o. (ok (ok []), o);
  delete_object = λ bucket key o. (ok tt, select (λ x. not (is_named bucket (key ∷ []) x)) o);
  head_object = λ bucket key o. (if any (is_at bucket key) o then ok tt else err tt, o);
  list_objects_v2 = λ bucket prefix token o. (
    ok (record {
      contents = below bucket prefix o;
      is_truncated = none;
      next_continuation_token = none;
    }),
    o,
  );
  delete_objects = λ bucket keys o. (
    ok (record { errors = []; deleted = length keys }),
    select (λ x. not (is_named bucket keys x)) o,
  );
}

last_page :
    (bucket : Text) (prefix token : Option Text) (o : Objects) (page : Page) (next : Text)
    → (s3.list_objects_v2 bucket prefix token o).0 ≡ ok page
    → page.next_continuation_token ≡ some next
    → 0 < 0
last_page bucket prefix token o page next listed more =
    let stop : none ≡ some next =
      ap (λ (p : Page). p.next_continuation_token) (ok-injective listed) ∙ more in
    cc

abbrev paging : Paging s3
paging = record {
  remaining = λ bucket prefix token o. 0;
  progress = λ bucket prefix token o page next listed more.
      last_page bucket prefix token o page next listed more;
}

keys-below :
    (bucket prefix : Text) (o : Objects)
    → All (λ key. starts_with prefix key ≡ true) (keys_of (below bucket (some prefix) o))
keys-below bucket prefix [] = tt
keys-below bucket prefix (x ∷ xs) =
    elim (Bool-cases (text_eq bucket x.0 && starts_with prefix x.1)) [
      | inl e ↦ rw e (ground (arith, e), keys-below bucket prefix xs)
      | inr e ↦ rw e (keys-below bucket prefix xs)
    ]

select-named :
    (b k bucket : Text) (keys : List Text) (o : Objects)
    → any (is_at b k) o ≡ true
    → any (is_at b k) (select (λ x. not (is_named bucket keys x)) o) ≡ false
    → (b ≡ bucket) × (any (text_eq k) keys ≡ true)
select-named b k bucket keys [] h gone = cc
select-named b k bucket keys (x ∷ xs) h gone = elim (Bool-cases (is_at b k x)) [
  | inl e ↦
      let at_b : b ≡ x.0 = (text_eq_iff b x.0).0 (ground (arith, e)) in
      let at_k : k ≡ x.1 = (text_eq_iff k x.1).0 (ground (arith, e)) in
      elim (Bool-cases (is_named bucket keys x)) [
        | inl n ↦ (
          at_b ∙ sym ((text_eq_iff bucket x.0).0 (ground (arith, n))),
          rw at_k (ground (arith, n)),
        )
        | inr n ↦ ground (arith, gone, e, n)
      ]
  | inr e ↦ select-named b k bucket keys xs (ground (arith, h, e)) (ground (arith, gone, e))
]

delete_single :
    (b k bucket key : Text) (o : Objects)
    → any (is_at b k) o ≡ true
    → any (is_at b k) (select (λ x. not (is_named bucket (key ∷ []) x)) o) ≡ false
    → (b ≡ bucket) × (k ≡ key)
delete_single b k bucket key o h gone =
    let named = select-named b k bucket (key ∷ []) o h gone in
    (named.0, (text_eq_iff k key).0 (ground (arith, named.1)))

abbrev laws : Laws s3
laws = record {
  has = λ b k o. any (is_at b k) o;
  head_keeps = λ b k bucket key o. refl;
  list_keeps = λ b k bucket prefix token o. refl;
  list_below =
      λ bucket prefix token o page listed. rw (← ok-injective listed) (keys-below bucket prefix o);
  delete_only = λ b k bucket key o h gone. delete_single b k bucket key o h gone;
  delete_named = λ b k bucket keys o h gone. select-named b k bucket keys o h gone;
}

-- A payload is what it was made of.
abbrev codec : Codec
codec = record {
  Value = DeleteObjectPayload × Option DeletePrefixPayload;
  encode_object = λ p. (p, none);
  encode_prefix =
      λ p. (record { object_key = []; bucket = []; workspace_id = 0; document_id = 0 }, some p);
  decode_object = λ v. some v.0;
  decode_prefix = λ v. v.1;
}

abbrev hex_digit : ℕ → ℕ
hex_digit d = if leb d 9 then 48 + d else 87 + d

-- That many hexadecimal digits, the last one first.
abbrev hex_digits : ℕ → ℕ → Text
hex_digits zero n = []
hex_digits (suc k) n = hex_digit (n % 16) ∷ hex_digits k (n / 16)

abbrev uuid : Uuid
uuid = record { parse_str = λ s. none; to_string = λ id. hex_digits 36 id }

length-hex_digits : (k n : ℕ) → length (hex_digits k n) ≡ k
length-hex_digits zero n = refl
length-hex_digits (suc k) n = ap suc (length-hex_digits k (n / 16))

hex_digits-All : (k n : ℕ) → All (λ c. is_hex c ≡ true) (hex_digits k n)
hex_digits-All zero n = tt
hex_digits-All (suc k) n = (ground arith, hex_digits-All k (n / 16))

abbrev cap : ℕ → ℕ
cap zero = 1
cap (suc k) = 16 * cap k

hex_digits-injective : (k n m : ℕ) → n < cap k → m < cap k → hex_digits k n ≡ hex_digits k m → n ≡ m
hex_digits-injective zero n m hn hm h = ground arith
hex_digits-injective (suc k) n m hn hm h =
    let quotients : n / 16 ≡ m / 16 =
      hex_digits-injective k (n / 16) (m / 16) (ground arith) (ground arith) cc in
    let digits : hex_digit (n % 16) ≡ hex_digit (m % 16) = cc in ground (arith, quotients, digits)

printed : IsPrinted uuid
printed = record {
  length_36 = length-hex_digits 36;
  hex = hex_digits-All 36;
  injective = λ i j hi hj h. hex_digits-injective 36 i j (omega arith) (omega arith) h;
}

workspace_prefix_exact_example :
    (starts_with (build_workspace_prefix uuid 1 2) (build_original_document_object_key uuid 1 3 4)
      ≡ true)
    ↔ ((◌≡◌ {A = ℕ} 1 1) × (◌≡◌ {A = ℕ} 2 3))
workspace_prefix_exact_example =
    workspace_prefix_exact uuid printed 1 2 1 3 4 (omega arith) (omega arith) (omega arith)
      (omega arith)

workspace_prefix_valid_example : validate_prefix (build_workspace_prefix uuid 1 2) ≡ none
workspace_prefix_valid_example = workspace_prefix_valid uuid printed 1 2

abbrev show_sql : SqlError → Text
show_sql e = codes "sql"

abbrev bucket : Text
bucket = codes "files"

abbrev stored : Objects
stored = (bucket, codes "tenants/1/a") ∷ (bucket, codes "tenants/2/b") ∷ []

abbrev row : Row codec
row = record {
  id = 1;
  event_type = codes "delete_prefix";
  payload = codec.encode_prefix (record {
    prefix = codes "tenants/1/";
    bucket = bucket;
    tenant_id = some 1;
    workspace_id = none;
  });
  status = row_pending;
  retry_count = pos 0;
  next_attempt_at = 0;
  error_message = none;
  created_at = 0;
  updated_at = 0;
}

abbrev world : World (Outbox codec)
world = record { db = record { rows = row ∷ []; next_uuid = 2 }; now = 10; env = [] }

here : laws.has bucket (codes "tenants/1/a") stored ≡ true
unfolding text_eq
here = refl

processed :
    laws.has bucket
      (codes "tenants/1/a")
      (process_single_row codec s3 paging show_sql uuid default_config row (world, stored)).1.1
    ≡ false
unfolding process_single_row process_row list_objects_in_bucket cleanup_prefix_in_bucket
    delete_objects_in_bucket to_ascii_lowercase trim is_escaping starts_with contains
processed = refl

processed-Asks_example : Asks codec (parse row.event_type) row.payload bucket (codes "tenants/1/a")
processed-Asks_example =
    processed-Asks codec s3 laws paging show_sql uuid bucket (codes "tenants/1/a") default_config
      row world stored here processed

abbrev tables : World Tables
tables = record {
  db = record {
    documents =
        (record {
          id = 1;
          workspace_id = 1;
          object_key = codes "tenants/2/b";
          status = completed;
          stage_done = true;
        })
        ∷ [];
    workspaces = [];
  };
  now = 0;
  env = [];
}

abbrev all_options : StorageCleanupOptions
all_options = record {
  allow_delete = true;
  delete_orphans = true;
  mark_missing_documents_failed = false;
}

-- An upload puts its object before the listing.
abbrev late : Point → World Tables × Objects → World Tables × Objects
late before_listing (w, o) = (w, (bucket, codes "tenants/2/b") ∷ o)
late before_lookups (w, o) = (w, o)
late before_marks (w, o) = (w, o)
late before_deletion (w, o) = (w, o)
