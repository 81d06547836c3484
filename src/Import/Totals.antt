-- ===== src/Import/Totals.antt =====
-- The counters after a batch.
use memberclass_backend_gola.Import.Counting.{
  is_created, is_failed, one_if, is_updated, is_already_had, is_skipped, process_row-Tallied,
  Tallied,
}
use memberclass_backend_gola.Import.Batch.{
  Counters, Store, RowState, process_batch, UserInput, process_row,
}
use memberclass_backend_gola.Common.{
  ℕ, suc, ◌+◌, ◌≡◌, refl, ap, Bool, ◌&&◌, List, [], ◌∷◌, arith, length,
}

abbrev pub failed_new : RowState → Bool
failed_new st = is_failed st.status && st.is_new_user

-- The number of rows that pass a test.
abbrev pub count_rows : (RowState → Bool) → List RowState → ℕ
count_rows p [] = 0
count_rows p (st ∷ sts) = one_if (p st) + count_rows p sts

-- What the counters gain over the rows of a batch.
pub record Totals (c c' : Counters) (sts : List RowState) : Type 0 where
  pub created_total :
      c'.created_users
      ≡ c.created_users + count_rows (λ st. is_created st.status) sts + count_rows failed_new sts
  pub updated_total :
      c'.updated_users ≡ c.updated_users + count_rows (λ st. is_updated st.status) sts
  pub already_total :
      c'.already_had_all ≡ c.already_had_all + count_rows (λ st. is_already_had st.status) sts
  pub skipped_total : c'.skipped_rows ≡ c.skipped_rows + count_rows (λ st. is_skipped st.status) sts
  pub errors_total : c'.error_rows ≡ c.error_rows + count_rows (λ st. is_failed st.status) sts

Totals-next :
    (c c' c'' : Counters) (st : RowState) (sts : List RowState)
    → Tallied c c' st
    → Totals c' c'' sts
    → Totals c c'' (st ∷ sts)
Totals-next c c' c'' st sts r t = record {
  created_total = omega (arith, r.created_count, r.new_rows, t.created_total);
  updated_total = omega (arith, r.updated_count, t.updated_total);
  already_total = omega (arith, r.already_count, t.already_total);
  skipped_total = omega (arith, r.skipped_count, t.skipped_total);
  errors_total = omega (arith, r.errors_count, t.errors_total);
}

module _ (store : Store) (deliveries : Bool) where
  -- Whatever the database answers, a batch gives one row for each input, and the counters gain the rows
  -- of each status; those created gain the new users whose row failed later as well, which the errors
  -- count too.
  pub process_batch-Totals :
      (batch_start : ℕ) (us : List UserInput) (c : Counters) (s : store.State)
      → let r = (process_batch store deliveries batch_start us c s).0 in
        (length r.0 ≡ length us) × Totals c r.1 r.0
  unfolding process_batch
  process_batch-Totals batch_start [] c s = (
    refl,
    record {
      created_total = omega arith;
      updated_total = omega arith;
      already_total = omega arith;
      skipped_total = omega arith;
      errors_total = omega arith;
    },
  )
  process_batch-Totals batch_start (u ∷ us) c s =
      let row = process_row store deliveries batch_start u c s in
      let (rows, totals) = process_batch-Totals (batch_start + 1) us row.0.1 row.1 in
      (
        ap suc rows,
        Totals-next c row.0.1 _ row.0.0 _ (process_row-Tallied store deliveries batch_start u c s)
            totals,
      )
