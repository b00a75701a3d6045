-- ===== src/Execution/Driver/Creation.antt =====
-- `execute_create_table` of src/execution/default_executor.cpp on the catalog and the storage in
-- memory.
use matt_sql.Prelude.{
  ℕ, suc, ◌≡◌, refl, sym, ap, ◌∙◌, inl, inr, false, none, some, List, [], ◌==◌, arith, Bool-cases,
}
use matt_sql.Common.Status.{Result, ok, err, ErrorCode, Status, ◌>>◌, execution_error}
use matt_sql.Common.Maps.{number_eq, contains}
use matt_sql.Lexer.{fold_identifier_key, text_eq}
use matt_sql.Catalog.{TableInfo, CreateTableRequest, text_eq_sound}
use matt_sql.Catalog.Hosted.{Hosted, load_table}
use matt_sql.Catalog.Contents.{in_memory_api-StoresTables}
use matt_sql.Catalog.Creation.{create_lem}
use matt_sql.Catalog.InMemory.{
  get_table-create_table_other, get_table-drop_table_self, get_table-drop_table_other,
}
use matt_sql.Catalog.Identity.{HasFreshId, failed_create_table}
use matt_sql.Catalog.Roots.{create_table-not_found, set_table_heap_root-create_table}
use matt_sql.Catalog.Tables.{
  in_memory_api, check_columns, create_table, drop_table, get_table, invalid_page_id,
}
use matt_sql.Storage.TableStorage.{TableStorage, create_heap, open_heap, record_count}
use matt_sql.Storage.TableStorage.Opening.{open_heap-create_heap}
use matt_sql.Planner.Plans.{PhysicalPlans, null_physical_inputs, require_leaf}
use matt_sql.Execution.Executor.{Transaction, require_writable}
use matt_sql.Execution.Driver.{
  Step, execute_create_table, create_catalogued, create_heaped, create_rooted, passing,
}

-- The new table is found under its name in any case, and its heap is the empty heap at the root that
-- the catalog has for it.
pub record IsCreated (q : CreateTableRequest) (catalog : Hosted) (storage : TableStorage)
    (name : List ℕ) : Type 0 where
  pub table : TableInfo
  pub found : get_table in_memory_api catalog name ≡ ok table
  pub named : table.name ≡ q.name
  pub columns : check_columns 0 [] q.schema ≡ ok table.schema
  pub opened : open_heap storage table.id table.heap_root_page_id ≡ ok table.id
  pub empty : record_count storage table.id ≡ ok 0

-- What a CREATE TABLE may end in, from a catalog and a storage.
abbrev pub CreateEnds : CreateTableRequest → Hosted → TableStorage → Step in_memory_api → Type 0
CreateEnds q catalog storage none = ⊥
CreateEnds q catalog storage (some ((catalog', storage'), ok result)) =
    (name : List ℕ)
    → fold_identifier_key name ≡ fold_identifier_key q.name
    → IsCreated q catalog' storage' name
CreateEnds q catalog storage (some ((catalog', storage'), err e)) =
    (storage' ≡ storage)
    × ((name : List ℕ)
        → get_table in_memory_api catalog' name ≡ get_table in_memory_api catalog name)

create_heap_fails :
    (s : TableStorage) (id : ℕ) {s' : TableStorage} {e : ErrorCode}
    → create_heap s id ≡ (s', err e)
    → s' ≡ s
unfolding create_heap
create_heap_fails s id h = elim (Bool-cases (contains number_eq s.tables id)) [
  | inl there ↦ sym (ap (λ p. p.0) (rw there at h))
  | inr absent ↦ elim (Bool-cases (s.next_root_page_id == invalid_page_id)) [
    | inl full ↦ sym (ap (λ p. p.0) (rw (absent, full) at h))
    | inr room ↦ absurd (cc (rw (absent, room) at h))
  ]
]

create_heap_root :
    (s : TableStorage) (id : ℕ) {s' : TableStorage} {root : ℕ}
    → create_heap s id ≡ (s', ok root)
    → (root == invalid_page_id) ≡ false
unfolding create_heap
create_heap_root s id h = elim (Bool-cases (contains number_eq s.tables id)) [
  | inl there ↦ absurd (cc (rw there at h))
  | inr absent ↦ elim (Bool-cases (s.next_root_page_id == invalid_page_id)) [
    | inl full ↦ absurd (cc (rw (absent, full) at h))
    | inr room ↦ ground arith
  ]
]

-- A table that was created and dropped leaves no trace in the lookups.
dropped_lem :
    (s : Hosted) (q : CreateTableRequest) {s' : Hosted} {t : TableInfo} (name : List ℕ)
    → create_table in_memory_api s q ≡ (s', ok t)
    → get_table in_memory_api (drop_table in_memory_api s' t.name).0 name
      ≡ get_table in_memory_api s name
unfolding get_table
dropped_lem s q {s'} {t} name h =
    let named : fold_identifier_key t.name ≡ fold_identifier_key q.name =
      ap fold_identifier_key (create_lem in_memory_api in_memory_api-StoresTables s q h).name in
    elim (Bool-cases (text_eq (fold_identifier_key q.name) (fold_identifier_key name))) [
      | inl same ↦
          let key : fold_identifier_key q.name ≡ fold_identifier_key name =
            text_eq_sound (fold_identifier_key q.name) (fold_identifier_key name) same in
          (get_table-drop_table_self s' t.name name (sym (named ∙ key))).0
          ∙ sym (ap (load_table s) (sym key) ∙ create_table-not_found s q h)
      | inr differ ↦
          get_table-drop_table_other s' t.name name (rw named differ)
          ∙ ap (λ (r : Hosted × Result TableInfo). load_table r.0 (fold_identifier_key name))
              (sym h)
          ∙ get_table-create_table_other s q name differ
    ]

created_lem :
    (s : Hosted) (q : CreateTableRequest) (storage : TableStorage) {s' s2 : Hosted} {t : TableInfo}
    {storage' : TableStorage} {root : ℕ} (name : List ℕ)
    → create_table in_memory_api s q ≡ (s', ok t)
    → create_heap storage t.id ≡ (storage', ok root)
    → load_table s2 (fold_identifier_key q.name) ≡ ok (record t { heap_root_page_id = root })
    → fold_identifier_key name ≡ fold_identifier_key q.name
    → IsCreated q s2 storage' name
unfolding get_table
created_lem s q storage {s2 = s2} {t = t} {root = root} name c h found same =
    let created = create_lem in_memory_api in_memory_api-StoresTables s q c in
    let differ : (t.id == suc t.id) ≡ false = ground arith in
    let opening = open_heap-create_heap storage t.id (suc t.id) 0 h differ in
    record {
      table = record t { heap_root_page_id = root };
      found = ap (load_table s2) same ∙ found;
      named = created.name;
      columns = created.columns;
      opened = opening.0;
      empty = opening.1;
    }

heaped_lem :
    (s : Hosted) (q : CreateTableRequest) (storage : TableStorage) {s' : Hosted} {t : TableInfo}
    (h : TableStorage × Result ℕ)
    → create_table in_memory_api s q ≡ (s', ok t)
    → create_heap storage t.id ≡ h
    → CreateEnds q s storage (create_heaped in_memory_api s' t h)
unfolding create_heaped create_rooted
heaped_lem s q storage {s'} {t} (storage', err e) c h =
    (create_heap_fails storage t.id h, λ name. dropped_lem s q name c)
heaped_lem s q storage {s'} {t} (storage', ok root) c h =
    let (s2, rooted, found) =
      set_table_heap_root-create_table s q root c (create_heap_root storage t.id h) in
    rw rooted (λ name same. created_lem s q storage name c h found same)

catalogued_lem :
    (s : Hosted) (q : CreateTableRequest) (storage : TableStorage) (r : Hosted × Result TableInfo)
    → HasFreshId s
    → create_table in_memory_api s q ≡ r
    → CreateEnds q s storage (create_catalogued in_memory_api storage r)
unfolding create_catalogued
catalogued_lem s q storage (s', err e) fresh c =
    (refl, λ name. ap (λ x. get_table in_memory_api x name) (failed_create_table s q fresh c))
catalogued_lem s q storage (s', ok t) fresh c =
    heaped_lem s q storage (create_heap storage t.id) c refl

passing_lem :
    (s : Hosted) (q : CreateTableRequest) (storage : TableStorage) (status : Status)
    (next : Step in_memory_api)
    → CreateEnds q s storage next
    → CreateEnds q s storage (passing in_memory_api status (s, storage) next)
unfolding passing
passing_lem s q storage (err e) next h = (refl, λ name. refl)
passing_lem s q storage (ok u) next h = h

-- CREATE TABLE on the catalog and the storage in memory, where the ids in use are below the next one:
-- it never raises the exception of the store. Where it succeeds, the table is found under its name in
-- any case with the columns as they were checked, and the root that the catalog has for it opens an
-- empty heap. Where it fails, the storage is as it was, and so is what GetTable gives for every name.
pub execute_create_table-CreateEnds :
    (transaction : Transaction) (q : CreateTableRequest) (children : PhysicalPlans) (s : Hosted)
    (storage : TableStorage)
    → HasFreshId s
    → CreateEnds q s storage
        (execute_create_table in_memory_api transaction q children (s, storage))
unfolding execute_create_table
execute_create_table-CreateEnds transaction q children s storage fresh =
    passing_lem s q storage
      (require_leaf (null_physical_inputs children) execution_error >> require_writable transaction)
      (create_catalogued in_memory_api storage (create_table in_memory_api s q))
      (catalogued_lem s q storage (create_table in_memory_api s q) fresh refl)
