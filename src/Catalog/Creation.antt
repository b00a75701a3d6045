-- ===== src/Catalog/Creation.antt =====
-- `CreateTable` of the catalog against `GetTable`, for every store that keeps its
-- tables.
use matt_sql.Prelude.{ℕ, ◌≡◌, refl, sym, ap, ◌∙◌, inl, inr, false, List, [], Bool-cases}
use matt_sql.Common.Status.{Result, ok, err, outcome, succeeds, fails}
use matt_sql.Common.Types.{ColumnSchema}
use matt_sql.Lexer.{fold_identifier_key, text_eq}
use matt_sql.Catalog.{TableInfo, CreateTableRequest}
use matt_sql.Catalog.Tables.{
  HostedCatalogApi, StoresTables, check_columns, create_table, create_absent, create_checked,
  store_new, get_table, is_empty, is_not_found,
}

module _ (api : HostedCatalogApi) (keeps : StoresTables api) where
  -- What a `CreateTable` that succeeds went through.
  pub record Created (s : api.State) (q : CreateTableRequest) (s' : api.State) (t : TableInfo)
      : Type 0 where
    pub columns : check_columns 0 [] q.schema ≡ ok t.schema
    pub name : t.name ≡ q.name
    pub store :
        (s1 : api.State) × (u : TableInfo) × (api.allocate_table_id s ≡ (s1, ok u.id))
        × (api.store_table s1 (fold_identifier_key q.name) u ≡ (s', ok t))
    pub stored : api.load_table s' (fold_identifier_key q.name) ≡ ok t

  store_new_lem :
      (s : api.State) (q : CreateTableRequest) (columns : List ColumnSchema)
      (r : api.State × Result ℕ) {s' : api.State} {t : TableInfo}
      → api.allocate_table_id s ≡ r
      → check_columns 0 [] q.schema ≡ ok columns
      → store_new api r (fold_identifier_key q.name) q.name columns ≡ (s', ok t)
      → Created s q s' t
  unfolding store_new
  store_new_lem s q columns (s1, err e) a c h = absurd (cc h)
  store_new_lem s q columns (s1, ok id) {s'} {t} a c h =
      let (same, stored) = keeps.stored s1 (fold_identifier_key q.name) _ s' t h in
      record {
        columns = rw same c;
        store = (s1, _, a, h);
        name = ap (λ x. x.name) same;
        stored = stored ∙ ap ok (sym same);
      }

  checked_lem :
      (s : api.State) (q : CreateTableRequest) {s' : api.State} {t : TableInfo}
      → create_checked api s (fold_identifier_key q.name) q.name (check_columns 0 [] q.schema)
        ≡ (s', ok t)
      → Created s q s' t
  unfolding create_checked
  checked_lem s q h = elim (outcome (check_columns 0 [] q.schema)) [
    | succeeds columns done ↦
        store_new_lem s q columns (api.allocate_table_id s) refl done (rw done at h)
    | fails e failed ↦ absurd (cc (rw failed at h))
  ]

  pub create_lem :
      (s : api.State) (q : CreateTableRequest) {s' : api.State} {t : TableInfo}
      → create_table api s q ≡ (s', ok t)
      → Created s q s' t
  unfolding create_table create_absent
  create_lem s q h = elim (Bool-cases (is_empty q.name)) [
    | inl empty ↦ absurd (cc (rw empty at h))
    | inr named ↦ elim (Bool-cases (is_empty q.schema)) [
      | inl empty ↦ absurd (cc (rw (named, empty) at h))
      | inr columns ↦ elim (outcome (api.load_table s (fold_identifier_key q.name))) [
        | succeeds t' there ↦ absurd (cc (rw (named, columns, there) at h))
        | fails e absent ↦ elim (Bool-cases (is_not_found e)) [
          | inl new ↦ checked_lem s q (rw (named, columns, absent, new) at h)
          | inr other ↦ absurd (cc (rw (named, columns, absent, other) at h))
        ]
      ]
    ]
  ]

  -- A table that `CreateTable` returned is what `GetTable` gives for its name in any case; its
  -- columns are those of the request as the check on them gives them.
  pub get_table-create_table_self :
      (s : api.State) (q : CreateTableRequest) {s' : api.State} {t : TableInfo} (name : List ℕ)
      → create_table api s q ≡ (s', ok t)
      → fold_identifier_key name ≡ fold_identifier_key q.name
      → (get_table api s' name ≡ ok t)
        × (t.name ≡ q.name)
        × (check_columns 0 [] q.schema ≡ ok t.schema)
  unfolding get_table
  get_table-create_table_self s q {s'} name h same =
      let c = create_lem s q h in (ap (api.load_table s') same ∙ c.stored, c.name, c.columns)

  store_new_others :
      (a : api.State × Result ℕ) (key name : List ℕ) (columns : List ColumnSchema) (j : List ℕ)
      → text_eq key j ≡ false
      → api.load_table (store_new api a key name columns).0 j ≡ api.load_table a.0 j
  unfolding store_new
  store_new_others (s, err e) key name columns j h = refl
  store_new_others (s, ok id) key name columns j h = keeps.store_others s key _ j h

  checked_others :
      (s : api.State) (key name : List ℕ) (r : Result (List ColumnSchema)) (j : List ℕ)
      → text_eq key j ≡ false
      → api.load_table (create_checked api s key name r).0 j ≡ api.load_table s j
  unfolding create_checked
  checked_others s key name (err e) j h = refl
  checked_others s key name (ok columns) j h =
      store_new_others (api.allocate_table_id s) key name columns j h ∙ keeps.allocated s j

  absent_others :
      (s : api.State) (q : CreateTableRequest) (key : List ℕ) (r : Result TableInfo) (j : List ℕ)
      → text_eq key j ≡ false
      → api.load_table (create_absent api s q key r).0 j ≡ api.load_table s j
  unfolding create_absent
  absent_others s q key (ok t) j h = refl
  absent_others s q key (err e) j h = elim (Bool-cases (is_not_found e)) [
    | inl new ↦
        rw (create_absent, new) (checked_others s key q.name (check_columns 0 [] q.schema) j h)
    | inr other ↦ rw (create_absent, other) refl
  ]

  -- `CreateTable`, whether it succeeds or fails, leaves what `GetTable` gives for every other name.
  pub create_table_keeps_others :
      (s : api.State) (q : CreateTableRequest) (name : List ℕ)
      → text_eq (fold_identifier_key q.name) (fold_identifier_key name) ≡ false
      → get_table api (create_table api s q).0 name ≡ get_table api s name
  unfolding get_table create_table
  create_table_keeps_others s q name h = elim (Bool-cases (is_empty q.name)) [
    | inl empty ↦ rw (create_table, empty) refl
    | inr named ↦ elim (Bool-cases (is_empty q.schema)) [
      | inl empty ↦ rw (create_table, named, empty) refl
      | inr columns ↦
          rw (create_table, named, columns)
            (absent_others s q (fold_identifier_key q.name)
              (api.load_table s (fold_identifier_key q.name)) (fold_identifier_key name) h)
    ]
  ]
