-- ===== src/Import/Counting.antt =====
-- The counters of an import agree with its rows.
use memberclass_backend_gola.Import.Batch.{
  created, updated, already_had, skipped, failed, Counters, RowStatus, Store, finish_row, Row,
  RowState, already_had, fail, deliver, process_row, linked_new, user_created, email_checked,
  magic_refreshed, check, linked_known, has_all_checked, one_created, magic_created, user_found,
  refreshed_doc, magic, refresh_doc, inserted, Found, Reply, new_state, UserInput, create_magic,
  needs_update, first_state, error, got,
}
use memberclass_backend_gola.Common.{
  refl, sym, ap, ◌∙◌, none, some, Option, refl, sym, ap, ◌∙◌, ℕ, ◌+◌, ◌≡◌, inl, inr, Bool, true,
  false, ◌&&◌, ◌||◌, arith, if◌then◌else◌, Bool-cases, GoString, not, str, to_lower, ◌++◌, is_empty,
}

abbrev pub is_created : RowStatus → Bool
is_created created = true
is_created _ = false

abbrev pub is_updated : RowStatus → Bool
is_updated updated = true
is_updated _ = false

abbrev pub is_already_had : RowStatus → Bool
is_already_had already_had = true
is_already_had _ = false

abbrev pub is_skipped : RowStatus → Bool
is_skipped skipped = true
is_skipped _ = false

abbrev pub is_failed : RowStatus → Bool
is_failed failed = true
is_failed _ = false

abbrev pub one_if : Bool → ℕ
one_if b = if b then 1 else 0

-- What a finished row adds to the counters. A new user counts as created even where a later step fails.
pub record Tallied (c c' : Counters) (st : RowState) : Type 0 where
  pub created_count : c'.created_users ≡ c.created_users + one_if st.is_new_user
  pub updated_count : c'.updated_users ≡ c.updated_users + one_if (is_updated st.status)
  pub already_count : c'.already_had_all ≡ c.already_had_all + one_if (is_already_had st.status)
  pub skipped_count : c'.skipped_rows ≡ c.skipped_rows + one_if (is_skipped st.status)
  pub errors_count : c'.error_rows ≡ c.error_rows + one_if (is_failed st.status)
  pub new_rows :
      one_if st.is_new_user
      ≡ one_if (is_created st.status) + one_if (is_failed st.status && st.is_new_user)

-- A row under way: only the new user has been counted.
record Begun (c c' : Counters) (st : RowState) : Type 0 where
  created_count : c'.created_users ≡ c.created_users + one_if st.is_new_user
  updated_count : c'.updated_users ≡ c.updated_users
  already_count : c'.already_had_all ≡ c.already_had_all
  skipped_count : c'.skipped_rows ≡ c.skipped_rows
  errors_count : c'.error_rows ≡ c.error_rows

fail-Tallied :
    (store : Store) (c0 c : Counters) (st : RowState) (text : GoString) (s : store.State)
    → Begun c0 c st
    → Tallied c0 (fail store st c text s).0.1 (fail store st c text s).0.0
fail-Tallied store c0 c st text s b = record {
  created_count = b.created_count;
  updated_count = omega (arith, b.updated_count);
  already_count = omega (arith, b.already_count);
  skipped_count = omega (arith, b.skipped_count);
  errors_count = omega (arith, b.errors_count);
  new_rows = omega arith;
}

-- A property of both branches of a test.
if_holds :
    {A : Type 0} (P : A → Type 0) (b : Bool) (x y : A)
    → (b ≡ true → P x)
    → (b ≡ false → P y)
    → P (if b then x else y)
if_holds P true x y f g = f refl
if_holds P false x y f g = g refl

-- The counts look at no other part of a row under way.
Begun-with :
    (c0 c : Counters) (st st' : RowState)
    → st'.is_new_user ≡ st.is_new_user
    → Begun c0 c st
    → Begun c0 c st'
Begun-with c0 c st st' same b = record {
  created_count = b.created_count ∙ ap (λ x. c0.created_users + one_if x) (sym same);
  updated_count = b.updated_count;
  already_count = b.already_count;
  skipped_count = b.skipped_count;
  errors_count = b.errors_count;
}

module _ (store : Store) (deliveries : Bool) (c0 : Counters) where
  open store use {State}

  -- The counts of a result.
  abbrev Right : Row store → Type 0
  Right r = Tallied c0 r.0.1 r.0.0

  finish_row-Tallied :
      (user_id : GoString) (uot_exists : Bool) (st : RowState) (c : Counters) (s : State)
      → Begun c0 c st
      → (uot_exists || st.is_new_user) ≡ true
      → Right (finish_row store user_id uot_exists st c s)
  unfolding finish_row
  finish_row-Tallied user_id uot_exists st c s b linked = elim (Bool-cases st.is_new_user) [
    | inl new ↦ rw new (record {
      created_count = rw new at b.created_count;
      updated_count = omega (arith, b.updated_count);
      already_count = omega (arith, b.already_count);
      skipped_count = omega (arith, b.skipped_count);
      errors_count = omega (arith, b.errors_count);
      new_rows = omega arith;
    })
    | inr old ↦ elim (Bool-cases st.has_all) [
      | inl all ↦
          rw (old, all)
            (record {
              created_count = rw old at b.created_count;
              updated_count = omega (arith, b.updated_count);
              already_count = omega (arith, b.already_count);
              skipped_count = omega (arith, b.skipped_count);
              errors_count = omega (arith, b.errors_count);
              new_rows = omega arith;
            })
      | inr some_left ↦
          let known : uot_exists ≡ true = ground (arith, linked, old) in
          rw (old, some_left, known)
            (record {
              created_count = rw old at b.created_count;
              updated_count = omega (arith, b.updated_count);
              already_count = omega (arith, b.already_count);
              skipped_count = omega (arith, b.skipped_count);
              errors_count = omega (arith, b.errors_count);
              new_rows = omega arith;
            })
    ]
  ]

  inserted-Tallied :
      (user_id : GoString) (uot_exists : Bool) (st : RowState) (c : Counters)
      (r : Reply (Unit {0}) × State)
      → Begun c0 c st
      → (uot_exists || st.is_new_user) ≡ true
      → Right (inserted store user_id uot_exists st c r)
  unfolding inserted
  inserted-Tallied user_id uot_exists st c (error text, s) b l = fail-Tallied store c0 c st text s b
  inserted-Tallied user_id uot_exists st c (got _, s) b l =
      finish_row-Tallied user_id uot_exists st c s b l

  deliver-Tallied :
      (user_id : GoString) (uot_exists : Bool) (st : RowState) (c : Counters) (s : State)
      → Begun c0 c st
      → (uot_exists || st.is_new_user) ≡ true
      → Right (deliver store deliveries user_id uot_exists st c s)
  unfolding deliver
  deliver-Tallied user_id uot_exists st c s b l = elim (Bool-cases (deliveries && not st.has_all)) [
    | inl due ↦ rw due (
        inserted-Tallied user_id uot_exists st c
          (store.insert_deliveries user_id st.input.accession s) b l)
    | inr skip ↦ rw skip (finish_row-Tallied user_id uot_exists st c s b l)
  ]

  refreshed_doc-Tallied :
      (user_id : GoString) (uot_exists : Bool) (st : RowState) (c : Counters)
      (r : Reply (Unit {0}) × State)
      → Begun c0 c st
      → (uot_exists || st.is_new_user) ≡ true
      → Right (refreshed_doc store deliveries user_id uot_exists st c r)
  unfolding refreshed_doc
  refreshed_doc-Tallied user_id uot_exists st c (error text, s) b l =
      fail-Tallied store c0 c st text s b
  refreshed_doc-Tallied user_id uot_exists st c (got _, s) b l =
      deliver-Tallied user_id uot_exists st c s b l

  refresh_doc-Tallied :
      (found : Found) (user_id : GoString) (st : RowState) (c : Counters) (s : State)
      → Begun c0 c st
      → (found.uot_exists || st.is_new_user) ≡ true
      → Right (refresh_doc store deliveries found user_id st c s)
  unfolding refresh_doc
  refresh_doc-Tallied found user_id st c s b l =
      elim (Bool-cases
        (found.uot_exists && (not st.is_new_user && needs_update store st.input found))) [
          | inl due ↦ rw due (
              refreshed_doc-Tallied user_id found.uot_exists st c
                (store.update_name_doc user_id st.input.name st.input.document s) b l)
          | inr skip ↦ rw skip (deliver-Tallied user_id found.uot_exists st c s b l)
        ]

  magic_created-Tallied :
      (found : Found) (user_id : GoString) (st : RowState) (c : Counters)
      (r : Reply GoString × State)
      → Begun c0 c st
      → (found.uot_exists || st.is_new_user) ≡ true
      → Right (magic_created store deliveries found user_id st c r)
  unfolding magic_created
  magic_created-Tallied found user_id st c (error text, s) b l =
      fail-Tallied store c0 c st (str "magic token creation failed: " ++ text) s b
  magic_created-Tallied found user_id st c (got code, s) b l =
      refresh_doc-Tallied found user_id (record st { short_code = code }) c s
        (Begun-with c0 c st _ refl b) l

  magic_refreshed-Tallied :
      (found : Found) (user_id : GoString) (st : RowState) (c : Counters)
      (r : Reply (Unit {0}) × State)
      → Begun c0 c st
      → (found.uot_exists || st.is_new_user) ≡ true
      → Right (magic_refreshed store deliveries found user_id st c r)
  unfolding magic_refreshed create_magic
  magic_refreshed-Tallied found user_id st c (error text, s) b l =
      fail-Tallied store c0 c st text s b
  magic_refreshed-Tallied found user_id st c (got _, s) b l =
      magic_created-Tallied found user_id st c
        (store.create_magic_token user_id (to_lower st.input.email) s) b l

  magic-Tallied :
      (found : Found) (user_id : GoString) (st : RowState) (c : Counters) (s : State)
      → Begun c0 c st
      → (found.uot_exists || st.is_new_user) ≡ true
      → Right (magic store deliveries found user_id st c s)
  unfolding magic create_magic
  magic-Tallied found user_id st c s b l =
      if_holds Right st.has_all _ _ (λ all. refresh_doc-Tallied found user_id st c s b l)
        (λ some_left.
          if_holds Right st.is_new_user _ _
            (λ new.
              magic_created-Tallied found user_id st c
                (store.create_magic_token user_id (to_lower st.input.email) s) b l)
            (λ old.
              magic_refreshed-Tallied found user_id st c (store.refresh_magic_token user_id s) b l))

  has_all_checked-Tallied :
      (found : Found) (user_id : GoString) (st : RowState) (c : Counters) (r : Reply Bool × State)
      → Begun c0 c st
      → (found.uot_exists || st.is_new_user) ≡ true
      → Right (has_all_checked store deliveries found user_id st c r)
  unfolding has_all_checked
  has_all_checked-Tallied found user_id st c (error text, s) b l =
      fail-Tallied store c0 c st text s b
  has_all_checked-Tallied found user_id st c (got ha, s) b l =
      magic-Tallied found user_id (record st { has_all = ha }) c s (Begun-with c0 c st _ refl b) l

  check-Tallied :
      (found : Found) (user_id : GoString) (st : RowState) (c : Counters) (s : State)
      → Begun c0 c st
      → (found.uot_exists || st.is_new_user) ≡ true
      → Right (check store deliveries found user_id st c s)
  unfolding check
  check-Tallied found user_id st c s b l = elim (Bool-cases (deliveries && not st.is_new_user)) [
    | inl due ↦
        rw due
          (has_all_checked-Tallied found user_id st c (store.user_has_all_deliveries user_id s) b l)
    | inr skip ↦ rw skip (magic-Tallied found user_id st c s b l)
  ]

  -- The row and counters once the user is counted as created.
  Begun-new :
      (st : RowState) (c : Counters)
      → st.is_new_user ≡ false
      → Begun c0 c st
      → Begun c0 (one_created store c) (new_state store st)
  Begun-new st c old b = record {
    created_count = omega (arith, rw old at b.created_count);
    updated_count = b.updated_count;
    already_count = b.already_count;
    skipped_count = b.skipped_count;
    errors_count = b.errors_count;
  }

  linked_new-Tallied :
      (found : Found) (user_id : GoString) (st : RowState) (c : Counters)
      (r : Reply (Unit {0}) × State)
      → st.is_new_user ≡ false
      → Begun c0 c st
      → Right (linked_new store deliveries found user_id st c r)
  unfolding linked_new
  linked_new-Tallied found user_id st c (error text, s) old b =
      fail-Tallied store c0 (one_created store c) (new_state store st) text s (Begun-new st c old b)
  linked_new-Tallied found user_id st c (got _, s) old b =
      check-Tallied found user_id (new_state store st) (one_created store c) s
        (Begun-new st c old b) (ground arith)

  user_created-Tallied :
      (found : Found) (st : RowState) (c : Counters) (r : Reply GoString × State)
      → st.is_new_user ≡ false
      → Begun c0 c st
      → Right (user_created store deliveries found st c r)
  unfolding user_created
  user_created-Tallied found st c (error text, s) old b = fail-Tallied store c0 c st text s b
  user_created-Tallied found st c (got user_id, s) old b =
      linked_new-Tallied found user_id st c (store.upsert user_id st.input.name st.input.document s)
        old b

  linked_known-Tallied :
      (found : Found) (st : RowState) (c : Counters) (r : Reply (Unit {0}) × State)
      → st.is_new_user ≡ false
      → Begun c0 c st
      → Right (linked_known store deliveries found st c r)
  unfolding linked_known
  linked_known-Tallied found st c (error text, s) old b = fail-Tallied store c0 c st text s b
  linked_known-Tallied found st c (got _, s) old b =
      check-Tallied found found.user_id (new_state store st) (one_created store c) s
        (Begun-new st c old b) (ground arith)

  user_found-Tallied :
      (st : RowState) (c : Counters) (r : Reply Found × State)
      → st.is_new_user ≡ false
      → Begun c0 c st
      → Right (user_found store deliveries st c r)
  unfolding user_found
  user_found-Tallied st c (error text, s) old b = fail-Tallied store c0 c st text s b
  user_found-Tallied st c (got found, s) old b = elim (Bool-cases (is_empty found.user_id)) [
    | inl unknown ↦ rw unknown (
        user_created-Tallied found st c
          (store.create_user (to_lower st.input.email) st.input.phone s) old b)
    | inr known ↦ rw known (
        if_holds Right (not found.uot_exists) _ _
          (λ stranger.
            linked_known-Tallied found st c
              (store.upsert found.user_id st.input.name st.input.document s) old b)
          (λ member. check-Tallied found found.user_id st c s b (ground (arith, member))))
  ]

  email_checked-Tallied :
      (st : RowState) (c : Counters) (s : State) (o : Option GoString)
      → st.is_new_user ≡ false
      → Begun c0 c st
      → Right (email_checked store deliveries st c s o)
  email_checked-Tallied st c s (some text) old b =
      fail-Tallied store c0 c st (str "invalid email: " ++ text) s b
  email_checked-Tallied st c s none old b =
      user_found-Tallied st c (store.find_user st.input s) old b

module _ (store : Store) (deliveries : Bool) where
  pub process_row-Tallied :
      (row_index : ℕ) (u : UserInput) (c : Counters) (s : store.State)
      → Tallied c
          (process_row store deliveries row_index u c s).0.1
          (process_row store deliveries row_index u c s).0.0
  unfolding process_row
  process_row-Tallied row_index u c s =
      let begun : Begun c c (first_state store row_index u) = record {
        created_count = omega arith;
        updated_count = refl;
        already_count = refl;
        skipped_count = refl;
        errors_count = refl;
      } in
      elim (Bool-cases (is_empty u.name || is_empty u.email)) [
        | inl missing ↦ rw missing (record {
          created_count = omega arith;
          updated_count = omega arith;
          already_count = omega arith;
          skipped_count = omega arith;
          errors_count = omega arith;
          new_rows = omega arith;
        })
        | inr given ↦ rw given (
            email_checked-Tallied store deliveries c (first_state store row_index u) c s
              (store.email_error (to_lower u.email)) refl begun)
      ]
