-- ===== src/Catalog/InMemory.antt =====
-- `CreateTable` and `DropTable` of src/catalog/in_memory_catalog.cpp against `GetTable`, on the store of
-- src/catalog/hosted_catalog_api.cpp.
use matt_sql.Prelude.{ℕ, ◌≡◌, ap, ◌∙◌, false, List}
use matt_sql.Common.Status.{ok, err, ◌>>=◌, not_found}
use matt_sql.Lexer.{fold_identifier_key, text_eq}
use matt_sql.Catalog.{CreateTableRequest}
use matt_sql.Catalog.Hosted.{Hosted, erase_table, load_table}
use matt_sql.Catalog.Tables.{in_memory_api, create_table, drop_table, get_table}
use matt_sql.Catalog.Contents.{
  in_memory_api-StoresTables, erased_lem, erase_others_lem, erase_result_lem,
}
use matt_sql.Catalog.Creation.{create_table_keeps_others}

-- In the catalog in memory, `CreateTable`, whether it succeeds or fails, leaves what `GetTable` gives
-- for every name that differs from the table's in more than case.
pub get_table-create_table_other :
    (s : Hosted) (q : CreateTableRequest) (name : List ℕ)
    → text_eq (fold_identifier_key q.name) (fold_identifier_key name) ≡ false
    → get_table in_memory_api (create_table in_memory_api s q).0 name
      ≡ get_table in_memory_api s name
get_table-create_table_other = create_table_keeps_others in_memory_api in_memory_api-StoresTables

-- In the catalog in memory, the name that `DropTable` was called with, in any case, is not found
-- afterwards; and `DropTable` succeeds exactly where `GetTable` did on that name, with the same error.
pub get_table-drop_table_self :
    (s : Hosted) (dropped name : List ℕ)
    → fold_identifier_key name ≡ fold_identifier_key dropped
    → (get_table in_memory_api (drop_table in_memory_api s dropped).0 name ≡ err not_found)
      × ((drop_table in_memory_api s dropped).1
          ≡ (get_table in_memory_api s dropped >>= λ table. ok tt))
unfolding get_table drop_table
get_table-drop_table_self s dropped name same =
    let key = fold_identifier_key dropped in
    (ap (load_table (erase_table s key).0) same ∙ erased_lem s key, erase_result_lem s key)

-- In the catalog in memory, `DropTable` leaves what `GetTable` gives for every name that differs from
-- the dropped one in more than case.
pub get_table-drop_table_other :
    (s : Hosted) (dropped name : List ℕ)
    → text_eq (fold_identifier_key dropped) (fold_identifier_key name) ≡ false
    → get_table in_memory_api (drop_table in_memory_api s dropped).0 name
      ≡ get_table in_memory_api s name
unfolding get_table drop_table
get_table-drop_table_other s dropped name =
    erase_others_lem s (fold_identifier_key dropped) (fold_identifier_key name)
