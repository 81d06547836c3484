-- ===== src/Import/Batch.antt =====
-- processBatch of processor.go. Its calls on the database, methods of the same file, are the record
-- Store: each takes the state of the database to an answer, or the text of an error, and a state.
use memberclass_backend_gola.Common.{
  ℕ, ◌+◌, Bool, true, false, not, ◌&&◌, ◌||◌, Option, none, some, List, [], ◌∷◌, ◌++◌,
  if◌then◌else◌, GoString, str, ◌===◌, is_empty, to_lower,
}

pub record UserInput : Type 0 where
  pub name : GoString
  pub email : GoString
  pub phone : GoString
  pub document : GoString
  pub accession : GoString

pub data RowStatus : Type 0 where
  created updated already_had skipped failed : RowStatus

pub record RowState : Type 0 where
  pub row_index : ℕ
  pub input : UserInput
  pub user_id : GoString
  pub status : RowStatus
  pub is_new_user : Bool
  pub has_all : Bool
  pub short_code : GoString
  pub error_message : GoString

-- importCounters, without those of the e-mails.
pub record Counters : Type 0 where
  pub created_users : ℕ
  pub updated_users : ℕ
  pub already_had_all : ℕ
  pub skipped_rows : ℕ
  pub error_rows : ℕ

-- What findUser returns.
pub record Found : Type 0 where
  pub user_id : GoString
  pub name : GoString
  pub document : GoString
  pub uot_exists : Bool

pub data Reply (A : Type 0) : Type 0 where
  got : A → Reply A
  error : GoString → Reply A

pub record Store : Type 1 where
  pub State : Type 0
  pub email_error : GoString → Option GoString  -- validateEmailForResend
  pub find_user : UserInput → State → Reply Found × State
  pub create_user : GoString → GoString → State → Reply GoString × State
  pub upsert : GoString → GoString → GoString → State → Reply (Unit {0}) × State
  pub user_has_all_deliveries : GoString → State → Reply Bool × State
  pub refresh_magic_token : GoString → State → Reply (Unit {0}) × State
  pub create_magic_token : GoString → GoString → State → Reply GoString × State
  pub update_name_doc : GoString → GoString → GoString → State → Reply (Unit {0}) × State
  pub insert_deliveries : GoString → GoString → State → Reply (Unit {0}) × State

module _ (store : Store) where
  open store use {State}

  abbrev pub Row : Type 0
  Row = (RowState × Counters) × State

  abbrev pub fail : RowState → Counters → GoString → State → Row
  fail st c text s = (
    (
      record st { status = failed; error_message = text },
      record c { error_rows = c.error_rows + 1 },
    ),
    s,
  )

  -- The switch at the end.
  unfoldable pub finish_row : GoString → Bool → RowState → Counters → State → Row
  finish_row user_id uot_exists st c s =
      if st.is_new_user
      then ((record st { user_id = user_id; status = created }, c), s)
      else if st.has_all
      then (
        (
          record st { user_id = user_id; status = already_had },
          record c { already_had_all = c.already_had_all + 1 },
        ),
        s,
      )
      else (
        (
          record st { user_id = user_id; status = updated },
          record c { updated_users = if uot_exists then c.updated_users + 1 else c.updated_users },
        ),
        s,
      )

  unfoldable pub inserted : GoString → Bool → RowState → Counters → Reply (Unit {0}) × State → Row
  unfolding finish_row
  inserted user_id uot_exists st c (error text, s) = fail st c text s
  inserted user_id uot_exists st c (got _, s) = finish_row user_id uot_exists st c s

  -- `deliveries` tells whether deliveries are requested.
  unfoldable pub deliver : Bool → GoString → Bool → RowState → Counters → State → Row
  unfolding inserted
  deliver deliveries user_id uot_exists st c s =
      if deliveries && not st.has_all
      then inserted user_id uot_exists st c (store.insert_deliveries user_id st.input.accession s)
      else finish_row user_id uot_exists st c s

  unfoldable pub refreshed_doc :
      Bool → GoString → Bool → RowState → Counters → Reply (Unit {0}) × State → Row
  unfolding deliver
  refreshed_doc deliveries user_id uot_exists st c (error text, s) = fail st c text s
  refreshed_doc deliveries user_id uot_exists st c (got _, s) =
      deliver deliveries user_id uot_exists st c s

  abbrev pub needs_update : UserInput → Found → Bool
  needs_update u found =
      (not (is_empty u.document) && is_empty found.document)
      || (not (is_empty u.name) && not (found.name === u.name))

  unfoldable pub refresh_doc : Bool → Found → GoString → RowState → Counters → State → Row
  unfolding refreshed_doc
  refresh_doc deliveries found user_id st c s =
      if found.uot_exists && (not st.is_new_user && needs_update st.input found)
      then refreshed_doc deliveries user_id found.uot_exists st c
          (store.update_name_doc user_id st.input.name st.input.document s)
      else deliver deliveries user_id found.uot_exists st c s

  unfoldable pub magic_created :
      Bool → Found → GoString → RowState → Counters → Reply GoString × State → Row
  unfolding refresh_doc
  magic_created deliveries found user_id st c (error text, s) =
      fail st c (str "magic token creation failed: " ++ text) s
  magic_created deliveries found user_id st c (got short_code, s) =
      refresh_doc deliveries found user_id (record st { short_code = short_code }) c s

  unfoldable pub create_magic : Bool → Found → GoString → RowState → Counters → State → Row
  unfolding magic_created
  create_magic deliveries found user_id st c s =
      magic_created deliveries found user_id st c
        (store.create_magic_token user_id (to_lower st.input.email) s)

  unfoldable pub magic_refreshed :
      Bool → Found → GoString → RowState → Counters → Reply (Unit {0}) × State → Row
  unfolding create_magic
  magic_refreshed deliveries found user_id st c (error text, s) = fail st c text s
  magic_refreshed deliveries found user_id st c (got _, s) =
      create_magic deliveries found user_id st c s

  unfoldable pub magic : Bool → Found → GoString → RowState → Counters → State → Row
  unfolding magic_refreshed refresh_doc
  magic deliveries found user_id st c s =
      if st.has_all
      then refresh_doc deliveries found user_id st c s
      else if st.is_new_user
      then create_magic deliveries found user_id st c s
      else magic_refreshed deliveries found user_id st c (store.refresh_magic_token user_id s)

  unfoldable pub has_all_checked :
      Bool → Found → GoString → RowState → Counters → Reply Bool × State → Row
  unfolding magic
  has_all_checked deliveries found user_id st c (error text, s) = fail st c text s
  has_all_checked deliveries found user_id st c (got ha, s) =
      magic deliveries found user_id (record st { has_all = ha }) c s

  unfoldable pub check : Bool → Found → GoString → RowState → Counters → State → Row
  unfolding has_all_checked
  check deliveries found user_id st c s =
      if deliveries && not st.is_new_user
      then has_all_checked deliveries found user_id st c (store.user_has_all_deliveries user_id s)
      else magic deliveries found user_id st c s

  abbrev pub new_state : RowState → RowState
  new_state st = record st { is_new_user = true }

  abbrev pub one_created : Counters → Counters
  one_created c = record c { created_users = c.created_users + 1 }

  unfoldable pub linked_new :
      Bool → Found → GoString → RowState → Counters → Reply (Unit {0}) × State → Row
  unfolding check
  linked_new deliveries found user_id st c (error text, s) =
      fail (new_state st) (one_created c) text s
  linked_new deliveries found user_id st c (got _, s) =
      check deliveries found user_id (new_state st) (one_created c) s

  unfoldable pub user_created : Bool → Found → RowState → Counters → Reply GoString × State → Row
  unfolding linked_new
  user_created deliveries found st c (error text, s) = fail st c text s
  user_created deliveries found st c (got user_id, s) =
      linked_new deliveries found user_id st c
        (store.upsert user_id st.input.name st.input.document s)

  unfoldable pub linked_known : Bool → Found → RowState → Counters → Reply (Unit {0}) × State → Row
  unfolding check
  linked_known deliveries found st c (error text, s) = fail st c text s
  linked_known deliveries found st c (got _, s) =
      check deliveries found found.user_id (new_state st) (one_created c) s

  unfoldable pub user_found : Bool → RowState → Counters → Reply Found × State → Row
  unfolding user_created linked_known
  user_found deliveries st c (error text, s) = fail st c text s
  user_found deliveries st c (got found, s) =
      if is_empty found.user_id
      then user_created deliveries found st c
          (store.create_user (to_lower st.input.email) st.input.phone s)
      else if not found.uot_exists
      then linked_known deliveries found st c
          (store.upsert found.user_id st.input.name st.input.document s)
      else check deliveries found found.user_id st c s

  abbrev pub email_checked : Bool → RowState → Counters → State → Option GoString → Row
  email_checked deliveries st c s (some text) = fail st c (str "invalid email: " ++ text) s
  email_checked deliveries st c s none = user_found deliveries st c (store.find_user st.input s)

  abbrev pub first_state : ℕ → UserInput → RowState
  first_state row_index u = record {
    row_index = row_index;
    input = u;
    user_id = [];
    status = skipped;
    is_new_user = false;
    has_all = false;
    short_code = [];
    error_message = [];
  }

  -- The body of the loop, on one row.
  unfoldable pub process_row : Bool → ℕ → UserInput → Counters → State → Row
  unfolding user_found
  process_row deliveries row_index u c s =
      let st = first_state row_index u in
      if is_empty u.name || is_empty u.email
      then ((st, record c { skipped_rows = c.skipped_rows + 1 }), s)
      else email_checked deliveries st c s (store.email_error (to_lower u.email))

  unfoldable pub process_batch :
      Bool → ℕ → List UserInput → Counters → State → (List RowState × Counters) × State
  unfolding process_row
  process_batch deliveries batch_start [] c s = (([], c), s)
  process_batch deliveries batch_start (u ∷ us) c s =
      let ((st, c'), s') = process_row deliveries batch_start u c s in
      let ((sts, c''), s'') = process_batch deliveries (batch_start + 1) us c' s' in
      ((st ∷ sts, c''), s'')
