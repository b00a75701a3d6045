-- ===== src/Catalog/Identity.antt =====
-- The ids of the catalog in memory: a new table is found under its id, and a request that fails
-- leaves the sequence of ids as it was.
use matt_sql.Prelude.{
  ℕ, ◌+◌, ◌^◌, ◌<◌, ◌≡◌, refl, sym, ap, ◌∙◌, inl, inr, false, none, some, List, [], ◌∷◌, All, ◌==◌,
  arith, Bool-cases, Option-cases,
}
use matt_sql.Common.Status.{ErrorCode, Result, ok, err, outcome, succeeds, fails}
use matt_sql.Common.Maps.{
  Map, number_eq, find, find-emplace_self, contains, is_found, find-emplace_self,
}
use matt_sql.Lexer.{fold_identifier_key}
use matt_sql.Catalog.{TableInfo, CreateTableRequest, key_eq}
use matt_sql.Catalog.Hosted.{
  Hosted, allocate_table_id, store_table, load_table, table_or_not_found, load_table_by_id,
}
use matt_sql.Catalog.Contents.{in_memory_api-StoresTables}
use matt_sql.Catalog.Creation.{create_lem}
use matt_sql.Catalog.Tables.{
  in_memory_api, check_columns, create_table, create_absent, create_checked, store_new,
  get_table_by_id, is_empty, is_not_found, invalid_page_id,
}

-- Every id in use was given out, so the next one is new.
abbrev pub HasFreshId : Hosted → Type 0
HasFreshId s = All (λ e. e.0 < s.next_table_id) s.table_names_by_id

pub fresh_lem :
    (ids : Map ℕ (List ℕ)) (n : ℕ) → All (λ e. e.0 < n) ids → find number_eq ids n ≡ none
unfolding find
fresh_lem [] n h = refl
fresh_lem ((id, key) ∷ ids) n h =
    let other : (id == n) ≡ false = ground (arith, h.0) in rw (find, other) (fresh_lem ids n h.1)

-- A table with a new name and the next id is stored.
pub stores_fresh :
    (s : Hosted) (k : List ℕ) (t : TableInfo)
    → find key_eq s.tables_by_name k ≡ none
    → find number_eq s.table_names_by_id t.id ≡ none
    → (store_table s k t).1 ≡ ok t
unfolding store_table
stores_fresh s k t absent new =
    let the_found : contains key_eq s.tables_by_name k ≡ false = ap is_found absent in
    let the_new : contains number_eq s.table_names_by_id t.id ≡ false = ap is_found new in
    rw (store_table, the_found, the_new) refl

pub absent_lem :
    (s : Hosted) (k : List ℕ) {e : ErrorCode}
    → load_table s k ≡ err e
    → find key_eq s.tables_by_name k ≡ none
unfolding load_table table_or_not_found
absent_lem s k h = elim (Option-cases (find key_eq s.tables_by_name k)) [
  | inl absent ↦ absent
  | inr (t, found) ↦ absurd (cc (ap table_or_not_found found, h))
]

checked_fails :
    (s : Hosted) (q : CreateTableRequest) (k : List ℕ) {s' : Hosted} {e : ErrorCode}
    → HasFreshId s
    → find key_eq s.tables_by_name k ≡ none
    → create_checked in_memory_api s k q.name (check_columns 0 [] q.schema) ≡ (s', err e)
    → s' ≡ s
unfolding create_checked store_new allocate_table_id
checked_fails s q k fresh absent h = elim (outcome (check_columns 0 [] q.schema)) [
  | fails e' failed ↦ sym (ap (λ (x : Hosted × Result TableInfo). x.0) (rw failed at h))
  | succeeds columns done ↦
      let t : TableInfo = record {
        id = s.next_table_id;
        name = q.name;
        schema = columns;
        heap_root_page_id = invalid_page_id;
        indexes = [];
      } in
      let stored =
        stores_fresh (allocate_table_id s).0 k t absent
          (fresh_lem s.table_names_by_id s.next_table_id fresh) in
      let failed = ap (λ (x : Hosted × Result TableInfo). x.1) (rw done at h) in
      absurd (cc (stored, failed))
]

-- Where the ids in use are below the next one, a `CreateTable` that fails leaves the catalog as it
-- was: no id is used up.
pub failed_create_table :
    (s : Hosted) (q : CreateTableRequest) {s' : Hosted} {e : ErrorCode}
    → HasFreshId s
    → create_table in_memory_api s q ≡ (s', err e)
    → s' ≡ s
unfolding create_table create_absent
failed_create_table s q {s'} fresh h =
    let key = fold_identifier_key q.name in
    elim (Bool-cases (is_empty q.name)) [
      | inl empty ↦ sym (ap (λ (x : Hosted × Result TableInfo). x.0) (rw empty at h))
      | inr named ↦ elim (Bool-cases (is_empty q.schema)) [
        | inl empty ↦ sym (ap (λ (x : Hosted × Result TableInfo). x.0) (rw (named, empty) at h))
        | inr columns ↦ elim (outcome (load_table s key)) [
          | succeeds t there ↦
              sym (ap (λ (x : Hosted × Result TableInfo). x.0) (rw (named, columns, there) at h))
          | fails e absent ↦ elim (Bool-cases (is_not_found e)) [
            | inl new ↦
                checked_fails s q key fresh (absent_lem s key absent)
                  (rw (named, columns, absent, new) at h)
            | inr other ↦ sym (
                ap (λ (x : Hosted × Result TableInfo). x.0)
                  (rw (named, columns, absent, other) at h))
          ]
        ]
      ]
    ]

stored_by_id :
    (s : Hosted) (k : List ℕ) (t : TableInfo) {s' : Hosted} {u : TableInfo}
    → store_table s k t ≡ (s', ok u)
    → (u ≡ t) × (load_table_by_id s' t.id ≡ some (ok t))
unfolding store_table load_table_by_id
stored_by_id s k t {s'} {u} h = elim (Bool-cases (contains key_eq s.tables_by_name k)) [
  | inl there ↦ absurd (ground arith)
  | inr absent ↦ elim (Bool-cases (contains number_eq s.table_names_by_id t.id)) [
    | inl there ↦ absurd (ground arith)
    | inr new ↦
        let same : record s {
          table_names_by_id = (t.id, k) ∷ s.table_names_by_id;
          tables_by_name = (k, t) ∷ s.tables_by_name;
        }
            ≡ s' =
          ground arith in
        let key = find-emplace_self number_eq s.table_names_by_id t.id k in
        let table = find-emplace_self key_eq s.tables_by_name k t in
        (ground arith, rw (← same) (rw (load_table_by_id, key) (rw table refl)))
  ]
]

-- A table that `CreateTable` returned is what `GetTable` gives for its id.
pub get_table_by_id-create_table :
    (s : Hosted) (q : CreateTableRequest) {s' : Hosted} {t : TableInfo}
    → create_table in_memory_api s q ≡ (s', ok t)
    → get_table_by_id in_memory_api s' t.id ≡ some (ok t)
unfolding get_table_by_id
get_table_by_id-create_table s q {s'} {t} h =
    let (s1, u, a, e) = (create_lem in_memory_api in_memory_api-StoresTables s q h).store in
    let (same, found) = stored_by_id s1 (fold_identifier_key q.name) u e in rw same found

pub stored_ids :
    (s : Hosted) (k : List ℕ) (t : TableInfo) {s' : Hosted} {u : TableInfo}
    → store_table s k t ≡ (s', ok u)
    → (s'.table_names_by_id ≡ (t.id, k) ∷ s.table_names_by_id)
      × (s'.next_table_id ≡ s.next_table_id)
unfolding store_table
stored_ids s k t h = elim (Bool-cases (contains key_eq s.tables_by_name k)) [
  | inl there ↦ absurd (ground arith)
  | inr absent ↦ elim (Bool-cases (contains number_eq s.table_names_by_id t.id)) [
    | inl there ↦ absurd (ground arith)
    | inr new ↦ (ground arith, ground arith)
  ]
]

ids_grow :
    (ids : Map ℕ (List ℕ)) (m n : ℕ) → m < n → All (λ e. e.0 < m) ids → All (λ e. e.0 < n) ids
ids_grow [] m n h k = tt
ids_grow ((id, key) ∷ ids) m n h k = (omega (arith, k.0), ids_grow ids m n h k.1)

grown :
    (s x : Hosted) (id : ℕ) (key : List ℕ)
    → x.table_names_by_id ≡ (id, key) ∷ s.table_names_by_id
    → id ≡ s.next_table_id
    → x.next_table_id ≡ s.next_table_id + 1
    → HasFreshId s
    → HasFreshId x
grown s x id key ids same next fresh =
    rw (ids, next)
      (omega (arith, same), ids_grow s.table_names_by_id s.next_table_id _ (omega arith) fresh)

-- The ids that `CreateTable` gives out stay below the next one, while 64 bits hold them.
pub create_table-HasFreshId :
    (s : Hosted) (q : CreateTableRequest)
    → s.next_table_id + 1 < 2 ^ 64
    → HasFreshId s
    → HasFreshId (create_table in_memory_api s q).0
unfolding allocate_table_id
create_table-HasFreshId s q small fresh =
    let r = create_table in_memory_api s q in
    elim (outcome r.1) [
      | fails e failed ↦
          let same : r.0 ≡ s = failed_create_table s q fresh (ap (λ x. (r.0, x)) failed) in
          rw same fresh
      | succeeds t done ↦
          let (s1, u, a, e) =
            (create_lem in_memory_api in_memory_api-StoresTables s q
              (ap (λ x. (r.0, x)) done)).store in
          let (ids, next) = stored_ids s1 (fold_identifier_key q.name) u e in
          let id : ok u.id ≡ ok s.next_table_id = sym (ap (λ (x : Hosted × Result ℕ). x.1) a) in
          let next1 = ap (λ (x : Hosted × Result ℕ). x.0.next_table_id) a in
          let ids1 = ap (λ (x : Hosted × Result ℕ). x.0.table_names_by_id) a in
          grown s r.0 u.id (fold_identifier_key q.name)
            (ids ∙ ap (λ m. (u.id, fold_identifier_key q.name) ∷ m) (sym ids1)) (cc id)
            (omega (arith, next, next1)) fresh
    ]
