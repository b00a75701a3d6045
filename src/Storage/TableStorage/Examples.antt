-- ===== src/Storage/TableStorage/Examples.antt =====
-- A run of the table storage, and the theorem on it at that run.
use matt_sql.Prelude.{◌≡◌, refl, [], ◌∷◌}
use matt_sql.Common.Status.{ok}
use matt_sql.Common.Maps.{find}
use matt_sql.Storage.TableStorage.{TableStorage, create_heap, open_heap, record_count, new_heap}
use matt_sql.Storage.TableStorage.Opening.{open_heap-create_heap}

abbrev one_heap : TableStorage
one_heap = record {
  next_root_page_id = 2;
  tables = (7, record { table_id = 7; root_page_id = 1; heap = new_heap 1 }) ∷ [];
}

abbrev two_heaps : TableStorage
two_heaps = record {
  next_root_page_id = 3;
  tables = (8, record { table_id = 8; root_page_id = 2; heap = new_heap 2 }) ∷ one_heap.tables;
}

second_heap : create_heap one_heap 8 ≡ (two_heaps, ok 2)
unfolding create_heap find
second_heap = refl

open_heap-create_heap_example :
    (open_heap two_heaps 8 2 ≡ ok 8)
    × (record_count two_heaps 8 ≡ ok 0)
    × (open_heap two_heaps 7 1 ≡ open_heap one_heap 7 1)
    × (record_count two_heaps 7 ≡ record_count one_heap 7)
open_heap-create_heap_example = open_heap-create_heap one_heap 8 7 1 second_heap refl
