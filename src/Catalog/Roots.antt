-- ===== src/Catalog/Roots.antt =====
-- The heap root of a table in the catalog in memory (`SetTableHeapRoot`).
use matt_sql.Prelude.{
  ℕ, ◌≡◌, refl, sym, ap, ◌∙◌, inl, inr, false, some, List, ◌==◌, Bool-cases, Option-cases,
}
use matt_sql.Common.Status.{ok, err, not_found}
use matt_sql.Common.Maps.{number_eq, find, assign, find-emplace_self, find-assign_self}
use matt_sql.Lexer.{fold_identifier_key}
use matt_sql.Catalog.{TableInfo, CreateTableRequest, key_eq}
use matt_sql.Catalog.Hosted.{
  Hosted, store_table, load_table, table_or_not_found, load_table_by_id, update_table, update_named,
}
use matt_sql.Catalog.Contents.{in_memory_api-StoresTables}
use matt_sql.Catalog.Creation.{create_lem}
use matt_sql.Catalog.Identity.{stored_ids}
use matt_sql.Catalog.Tables.{
  StoresTables, in_memory_api, create_table, create_absent, set_table_heap_root, set_loaded_root,
  is_empty, invalid_page_id,
}

loaded_find :
    (s : Hosted) (k : List ℕ) {t : TableInfo}
    → load_table s k ≡ ok t
    → find key_eq s.tables_by_name k ≡ some t
unfolding load_table table_or_not_found
loaded_find s k h = elim (Option-cases (find key_eq s.tables_by_name k)) [
  | inl absent ↦ absurd (cc (sym (ap table_or_not_found absent) ∙ h))
  | inr (u, found) ↦ found ∙ ap some (cc (sym (ap table_or_not_found found) ∙ h))
]

stored_same :
    (s : Hosted) (k : List ℕ) (u : TableInfo) {s' : Hosted} {t : TableInfo}
    → store_table s k u ≡ (s', ok t)
    → t ≡ u
stored_same s k u {s'} {t} e = (StoresTables.stored in_memory_api-StoresTables s k u s' t e).0

named_lem :
    (s : Hosted) (k : List ℕ) (u : TableInfo) {s' : Hosted} {t : TableInfo}
    → store_table s k u ≡ (s', ok t)
    → find number_eq s'.table_names_by_id u.id ≡ some k
named_lem s k u e =
    let (names, next) = stored_ids s k u e in
    rw names (find-emplace_self number_eq s.table_names_by_id u.id k)

-- A `CreateTable` that succeeds was asked for a name that was not found.
pub create_table-not_found :
    (s : Hosted) (q : CreateTableRequest) {s' : Hosted} {t : TableInfo}
    → create_table in_memory_api s q ≡ (s', ok t)
    → load_table s (fold_identifier_key q.name) ≡ err not_found
unfolding create_table create_absent load_table table_or_not_found
create_table-not_found s q h = elim (Bool-cases (is_empty q.name)) [
  | inl empty ↦ absurd (cc (rw empty at h))
  | inr named ↦ elim (Bool-cases (is_empty q.schema)) [
    | inl empty ↦ absurd (cc (rw (named, empty) at h))
    | inr columns ↦
        elim (Option-cases (find key_eq s.tables_by_name (fold_identifier_key q.name))) [
          | inl absent ↦ ap table_or_not_found absent
          | inr (t, found) ↦ absurd (cc (rw (named, columns, found) at h))
        ]
  ]
]

-- The root of a new table is set.
pub set_table_heap_root-create_table :
    (s : Hosted) (q : CreateTableRequest) (root : ℕ) {s' : Hosted} {t : TableInfo}
    → create_table in_memory_api s q ≡ (s', ok t)
    → (root == invalid_page_id) ≡ false
    → (s2 : Hosted) × (set_table_heap_root in_memory_api s' t.id root ≡ some (s2, ok tt))
      × (load_table s2 (fold_identifier_key q.name) ≡ ok (record t { heap_root_page_id = root }))
unfolding set_table_heap_root set_loaded_root load_table load_table_by_id update_table update_named
    table_or_not_found
set_table_heap_root-create_table s q root {s'} {t} h valid =
    let key = fold_identifier_key q.name in
    let created = create_lem in_memory_api in_memory_api-StoresTables s q h in
    let (s1, u, a, e) = created.store in
    let same : u.id ≡ t.id = ap (λ (x : TableInfo). x.id) (sym (stored_same s1 key u e)) in
    let named : find number_eq s'.table_names_by_id t.id ≡ some key =
      rw same at (named_lem s1 key u e) in
    let there : find key_eq s'.tables_by_name key ≡ some t = loaded_find s' key created.stored in
    let t' : TableInfo = record t { heap_root_page_id = root } in
    (
      record s' { tables_by_name = assign key_eq s'.tables_by_name key t' },
      rw valid (
          rw (load_table_by_id, named)
            (rw there (rw (update_table, named) (rw (update_named, there) refl)))),
      ap table_or_not_found (find-assign_self key_eq s'.tables_by_name key t' there),
    )
