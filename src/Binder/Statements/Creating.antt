-- ===== src/Binder/Statements/Creating.antt =====
-- CREATE TABLE in src/binder/default_binder.cpp against `CreateTable` of the catalog: the binder's
-- checks are those of the catalog.
use matt_sql.Prelude.{
  ℕ, ◌+◌, ◌-◌, ◌^◌, ◌≡◌, refl, inl, inr, true, false, List, [], ◌∷◌, ltb, Bool, Bool-cases,
  if◌then◌else◌, arith,
}
use matt_sql.Common.Status.{
  ErrorCode, Result, ok, err, bind_error, bind-eq-ok, guard-eq-ok, outcome, succeeds, fails,
}
use matt_sql.Common.Types.{SqlType, null_type, ColumnSchema, TableSchema}
use matt_sql.Common.Values.{type_eq}
use matt_sql.Lexer.{fold_identifier_key}
use matt_sql.Catalog.{TableInfo, CreateTableRequest}
use matt_sql.Catalog.Hosted.{Hosted, allocate_table_id, load_table}
use matt_sql.Catalog.Identity.{HasFreshId, fresh_lem, stores_fresh, absent_lem}
use matt_sql.Catalog.Tables.{
  in_memory_api, is_empty, has_name, is_not_found, invalid_page_id, get_table, validate_column,
  check_columns, create_table, create_absent, create_checked, store_new,
}
use matt_sql.Parser.Ast.{TypeName, ColumnDefinition, CreateTableStatement}
use matt_sql.Binder.Statements.{
  bound_create, to_sql_type, bind_columns, bind_absent, bind_create_table,
}

not_refused :
    {A : Type 0} (test : Bool) (code : ErrorCode) {r : Result A} {a : A}
    → (if test then err code else r) ≡ ok a
    → (test ≡ false) × (r ≡ ok a)
not_refused true code h = absurd (cc h)
not_refused false code h = (refl, h)

to_sql_type_lem :
    (name : TypeName) {t : SqlType} → to_sql_type name ≡ ok t → type_eq t null_type ≡ false
unfolding to_sql_type type_eq
to_sql_type_lem name h = ground arith

check_columns_cons :
    (index : ℕ) (names : List (List ℕ)) (column : ColumnSchema) (columns : List ColumnSchema)
    {checked : List ColumnSchema}
    → ltb (2 ^ 32 - 1) index ≡ false
    → is_empty column.name ≡ false
    → type_eq column.type null_type ≡ false
    → has_name names (fold_identifier_key column.name) ≡ false
    → check_columns (index + 1) (fold_identifier_key column.name ∷ names) columns ≡ ok checked
    → check_columns index names (column ∷ columns) ≡ ok (record column { id = index } ∷ checked)
unfolding check_columns validate_column
check_columns_cons index names column columns small named typed new rest =
    rw (check_columns, validate_column, small, named, typed, new, rest) refl

bound_columns_lem :
    (index : ℕ) (names : List (List ℕ)) (definitions : List ColumnDefinition)
    {columns : TableSchema}
    → bind_columns index names definitions ≡ ok columns
    → check_columns index names columns ≡ ok columns
unfolding bind_columns check_columns
bound_columns_lem index names [] {columns} h = let same : [] ≡ columns = cc h in rw (← same) refl
bound_columns_lem index names (d ∷ ds) {columns} h =
    let (small, h1) = guard-eq-ok (ltb (2 ^ 32 - 1) index) bind_error h in
    let (named, h2) = guard-eq-ok (is_empty d.name) bind_error h1 in
    let key = fold_identifier_key d.name in
    let (new, h3) = guard-eq-ok (has_name names key) bind_error h2 in
    let (type, typed, h4) = bind-eq-ok (to_sql_type d.type) _ h3 in
    let (rest, bound, made) = bind-eq-ok (bind_columns (index + 1) (key ∷ names) ds) _ h4 in
    let column : ColumnSchema = record {
      name = d.name;
      type = type;
      nullable = true;
      id = index;
    } in
    let same : column ∷ rest ≡ columns = cc made in
    rw (← same) (
      check_columns_cons index names column rest small named (to_sql_type_lem d.type typed) new
        (bound_columns_lem (index + 1) (key ∷ names) ds bound))

bound_columns_are_some :
    (definitions : List ColumnDefinition) {columns : TableSchema}
    → is_empty definitions ≡ false
    → bind_columns 0 [] definitions ≡ ok columns
    → is_empty columns ≡ false
unfolding bind_columns
bound_columns_are_some [] some bound = absurd (cc some)
bound_columns_are_some (d ∷ ds) {columns} some bound =
    let (_, h1) = guard-eq-ok (ltb (2 ^ 32 - 1) 0) bind_error bound in
    let (_, h2) = guard-eq-ok (is_empty d.name) bind_error h1 in
    let (_, h3) = guard-eq-ok (has_name [] (fold_identifier_key d.name)) bind_error h2 in
    let (type, _, h4) = bind-eq-ok (to_sql_type d.type) _ h3 in
    let (rest, _, made) = bind-eq-ok (bind_columns 1 (fold_identifier_key d.name ∷ []) ds) _ h4 in
    let same : record { name = d.name; type = type; nullable = true; id = 0 } ∷ rest ≡ columns =
      cc made in
    rw (← same) refl

-- What `CreateTable` has to give for a request that it accepts.
abbrev pub new_table : Hosted → CreateTableRequest → TableInfo
new_table s q = record {
  id = s.next_table_id;
  name = q.name;
  schema = q.schema;
  heap_root_page_id = invalid_page_id;
  indexes = [];
}

create_table_lem :
    (s : Hosted) (q : CreateTableRequest) {e : ErrorCode}
    → HasFreshId s
    → is_empty q.name ≡ false
    → is_empty q.schema ≡ false
    → check_columns 0 [] q.schema ≡ ok q.schema
    → load_table s (fold_identifier_key q.name) ≡ err e
    → is_not_found e ≡ true
    → (create_table in_memory_api s q).1 ≡ ok (new_table s q)
unfolding create_table create_absent create_checked store_new allocate_table_id
create_table_lem s q fresh named some checked absent new =
    let key = fold_identifier_key q.name in
    rw (named, some, absent, new, checked)
      (stores_fresh (allocate_table_id s).0 key (new_table s q) (absent_lem s key absent)
        (fresh_lem s.table_names_by_id s.next_table_id fresh))

-- In a catalog in memory whose ids in use are below the next one, `CreateTable` accepts every CREATE
-- TABLE that the binder accepts: the table has the next id, the name and the columns as they were
-- bound, no heap root and no index.
pub bind_create_table-create_table :
    (s : Hosted) (statement : CreateTableStatement) {q : CreateTableRequest}
    → HasFreshId s
    → bind_create_table in_memory_api s statement ≡ ok (bound_create q)
    → (create_table in_memory_api s q).1 ≡ ok (new_table s q)
unfolding bind_create_table bind_absent get_table
bind_create_table-create_table s statement {q} fresh h =
    let (named, h1) = not_refused (is_empty statement.table_name) bind_error h in
    let (some, h2) = not_refused (is_empty statement.columns) bind_error h1 in
    elim (outcome (load_table s (fold_identifier_key statement.table_name))) [
      | succeeds t found ↦ absurd (cc (rw found at h2))
      | fails e absent ↦ elim (Bool-cases (is_not_found e)) [
        | inr other ↦ absurd (cc (rw (absent, other) at h2))
        | inl new ↦
            let (columns, bound, made) =
              bind-eq-ok (bind_columns 0 [] statement.columns) _ (rw (absent, new) at h2) in
            let r : CreateTableRequest = record { name = statement.table_name; schema = columns } in
            let same : r ≡ q = cc made in
            rw (← same) (
              create_table_lem s r fresh named (bound_columns_are_some statement.columns some bound)
                (bound_columns_lem 0 [] statement.columns bound) absent new)
      ]
    ]
