-- ===== src/Catalog/Contents.antt =====
-- What the catalog's lookups give after its changes, for every store that keeps its tables; and that
-- the store in memory does.
use matt_sql.Prelude.{
  ℕ, ◌≡◌, refl, ap, ◌∙◌, inl, inr, false, List, ◌∷◌, arith, Bool-cases, Option-cases,
}
use matt_sql.Common.Status.{ok, err, ◌>>=◌, not_found}
use matt_sql.Common.Maps.{
  number_eq, find, find-emplace_self, find-emplace_other, find-erase_self, find-erase_other,
  contains,
}
use matt_sql.Lexer.{text_eq}
use matt_sql.Catalog.{TableInfo, key_eq}
use matt_sql.Catalog.Hosted.{
  Hosted, allocate_table_id, store_table, erase_table, erase_found, load_table, table_or_not_found,
}
use matt_sql.Catalog.Tables.{StoresTables, in_memory_api}

stored_lem :
    (s : Hosted) (k : List ℕ) (t : TableInfo) (s' : Hosted) (u : TableInfo)
    → store_table s k t ≡ (s', ok u)
    → (u ≡ t) × (load_table s' k ≡ ok t)
unfolding store_table load_table table_or_not_found
stored_lem s k t s' u h = elim (Bool-cases (contains key_eq s.tables_by_name k)) [
  | inl there ↦ absurd (ground arith)
  | inr absent ↦ elim (Bool-cases (contains number_eq s.table_names_by_id t.id)) [
    | inl there ↦ absurd (ground arith)
    | inr new ↦
        let result : u ≡ t = ground arith in
        let tables : s'.tables_by_name ≡ (k, t) ∷ s.tables_by_name = ground arith in
        (
          result,
          ap (λ m. table_or_not_found (find key_eq m k)) tables
              ∙ ap table_or_not_found (find-emplace_self key_eq s.tables_by_name k t),
        )
  ]
]

store_others_lem :
    (s : Hosted) (k : List ℕ) (t : TableInfo) (j : List ℕ)
    → text_eq k j ≡ false
    → load_table (store_table s k t).0 j ≡ load_table s j
unfolding store_table load_table
store_others_lem s k t j h = elim (Bool-cases (contains key_eq s.tables_by_name k)) [
  | inl there ↦ rw (store_table, there) refl
  | inr absent ↦ elim (Bool-cases (contains number_eq s.table_names_by_id t.id)) [
    | inl there ↦ rw (store_table, absent, there) refl
    | inr new ↦
        rw (store_table, absent, new)
          (ap table_or_not_found (find-emplace_other key_eq s.tables_by_name k j t h))
  ]
]

pub erased_lem : (s : Hosted) (k : List ℕ) → load_table (erase_table s k).0 k ≡ err not_found
unfolding erase_table erase_found load_table table_or_not_found
erased_lem s k = elim (Option-cases (find key_eq s.tables_by_name k)) [
  | inl absent ↦ rw (erase_table, absent) (ap table_or_not_found absent)
  | inr (t, found) ↦
      rw (erase_table, found) (ap table_or_not_found (find-erase_self key_eq s.tables_by_name k))
]

pub erase_others_lem :
    (s : Hosted) (k j : List ℕ)
    → text_eq k j ≡ false
    → load_table (erase_table s k).0 j ≡ load_table s j
unfolding erase_table erase_found load_table
erase_others_lem s k j h = elim (Option-cases (find key_eq s.tables_by_name k)) [
  | inl absent ↦ rw (erase_table, absent) refl
  | inr (t, found) ↦
      rw (erase_table, found)
        (ap table_or_not_found (find-erase_other key_eq s.tables_by_name k j h))
]

pub erase_result_lem :
    (s : Hosted) (k : List ℕ) → (erase_table s k).1 ≡ (load_table s k >>= λ table. ok tt)
unfolding erase_table erase_found load_table table_or_not_found
erase_result_lem s k = elim (Option-cases (find key_eq s.tables_by_name k)) [
  | inl absent ↦ rw (erase_table, load_table, absent) refl
  | inr (t, found) ↦ rw (erase_table, load_table, found) refl
]

-- The store in memory keeps its tables.
pub in_memory_api-StoresTables : StoresTables in_memory_api
unfolding allocate_table_id load_table
in_memory_api-StoresTables = record {
  stored = stored_lem;
  store_others = store_others_lem;
  allocated = λ s j. refl;
}
