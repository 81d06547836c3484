-- ===== src/Import/Examples.antt =====
-- Runs of the import.
use memberclass_backend_gola.Import.Variants.{GoodVariants, document_variants_lem}
use memberclass_backend_gola.Import.Totals.{Totals, process_batch-Totals}
use memberclass_backend_gola.Import.Batch.{process_batch, Counters, Store, UserInput, got, error}
use memberclass_backend_gola.Import.Documents.{document_variants}
use memberclass_backend_gola.Common.{
  ◌≡◌, refl, true, false, none, [], ◌∷◌, length, str, ◌===◌, has_text,
}

abbrev ana : UserInput
ana = record {
  name = str "Ana";
  email = str "ANA@x";
  phone = [];
  document = str "123.456.789-01";
  accession = [];
}

abbrev nobody : UserInput
nobody = record { name = []; email = str "x"; phone = []; document = []; accession = [] }

-- A database that knows no one and fails to link a user to the tenant.
abbrev broken : Store
broken = record {
  State = Unit {0};
  email_error = λ e. none;
  find_user =
      λ u s. (got (record { user_id = []; name = []; document = []; uot_exists = false }), s);
  create_user = λ e p s. (got (str "id"), s);
  upsert = λ u n d s. (error (str "insert UsersOnTenants"), s);
  user_has_all_deliveries = λ u s. (got false, s);
  refresh_magic_token = λ u s. (got tt, s);
  create_magic_token = λ u e s. (got (str "code"), s);
  update_name_doc = λ u n d s. (got tt, s);
  insert_deliveries = λ u a s. (got tt, s);
}

abbrev none_yet : Counters
none_yet = record {
  created_users = 0;
  updated_users = 0;
  already_had_all = 0;
  skipped_rows = 0;
  error_rows = 0;
}

-- Ana counts as created and as an error.
counts_twice :
    (process_batch broken true 0 (ana ∷ nobody ∷ []) none_yet tt).0.1
    ≡ record none_yet { created_users = 1; skipped_rows = 1; error_rows = 1 }
unfolding process_batch
counts_twice = refl

finds_variants :
    document_variants (str "12345678901") ≡ str "12345678901" ∷ str "123.456.789-01" ∷ []
unfolding document_variants ◌===◌ has_text
finds_variants = refl

process_batch-Totals_example :
    let r = (process_batch broken true 0 (ana ∷ nobody ∷ []) none_yet tt).0 in
    (length r.0 ≡ 2) × Totals none_yet r.1 r.0
process_batch-Totals_example = process_batch-Totals broken true 0 (ana ∷ nobody ∷ []) none_yet tt

document_variants_lem_example :
    GoodVariants (str "12345678901") (document_variants (str "12345678901"))
document_variants_lem_example = document_variants_lem (str "12345678901") refl
