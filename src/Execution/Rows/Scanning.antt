-- ===== src/Execution/Rows/Scanning.antt =====
-- The loop of a scan in src/execution/default_executor.cpp against the records of the table.
use matt_sql.Prelude.{
  ℕ, zero, suc, ◌+◌, ◌-◌, ◌≤◌, ◌<◌, ◌≡◌, refl, false, Option, some, List, [], ◌∷◌, length,
  length-append, get_or, drop, arith, All, All-append,
}
use matt_sql.Common.Status.{Result, ok, err, not_found, ◌>>=◌, outcome, succeeds, fails, bind-eq-ok}
use matt_sql.Common.Types.{Value, TableSchema}
use matt_sql.Catalog.Tables.{is_not_found}
use matt_sql.Storage.SlottedPage
use matt_sql.Storage.SlottedPage.{Page, RecordView, slot_count}
use matt_sql.Storage.Heap.{HeapTable, Cursor, next, RecordId, read}
use matt_sql.Storage.Heap.Scan.{
  add_entry, slot_entries, page_entries, entries_from, entries, Gives, next-Gives,
}
use matt_sql.Storage.Heap.Reach.{entries_from-Contains}
use matt_sql.Storage.TupleCodec.{decode}
use matt_sql.Execution.Rows.{scan_rows, scan_step, slots_in, scan_limit}

-- The rows of the records, in order, up to the first failure.
abbrev pub decode_entries : TableSchema → List (Result RecordView) → Result (List (List Value))
decode_entries schema [] = ok []
decode_entries schema (err e ∷ es) = err e
decode_entries schema (ok view ∷ es) =
    decode schema view.bytes >>= λ row. decode_entries schema es >>= λ rows. ok (row ∷ rows)

abbrev IsEntry : Result RecordView → Type 0
IsEntry (ok view) = Unit
IsEntry (err e) = is_not_found e ≡ false

add_entry-IsEntry :
    (x : Result RecordView) (es : List (Result RecordView))
    → All IsEntry es
    → All IsEntry (add_entry x es)
add_entry-IsEntry (ok view) es h = (tt, h)
add_entry-IsEntry (err not_found) es h = h
add_entry-IsEntry (err e) es h = (refl, h)

slot_entries-IsEntry : (p : Page) (i n : ℕ) → All IsEntry (slot_entries p i n)
slot_entries-IsEntry p i zero = tt
slot_entries-IsEntry p i (suc n) =
    add_entry-IsEntry (SlottedPage.read p i) (slot_entries p (i + 1) n)
      (slot_entries-IsEntry p (i + 1) n)

entries_from-IsEntry : (ps : List Page) (i : ℕ) → All IsEntry (entries_from ps i)
entries_from-IsEntry [] i = tt
entries_from-IsEntry (p ∷ ps) i =
    All-append IsEntry (page_entries p i) (entries_from ps 0)
      (slot_entries-IsEntry p i (slot_count p - i)) (entries_from-IsEntry ps 0)

length-add_entry :
    (x : Result RecordView) (es : List (Result RecordView))
    → length (add_entry x es) ≤ suc (length es)
length-add_entry (ok view) es = omega arith
length-add_entry (err not_found) es = omega arith
length-add_entry (err e) es = omega arith

length-slot_entries : (p : Page) (i n : ℕ) → length (slot_entries p i n) ≤ n
length-slot_entries p i zero = omega arith
length-slot_entries p i (suc n) = omega (
  arith,
  length-add_entry (SlottedPage.read p i) (slot_entries p (i + 1) n),
  length-slot_entries p (i + 1) n,
)

length-entries_from : (ps : List Page) → length (entries_from ps 0) ≤ slots_in ps
length-entries_from [] = omega arith
length-entries_from (p ∷ ps) = omega (
  arith,
  length-append (page_entries p 0) (entries_from ps 0),
  length-slot_entries p 0 (slot_count p - 0),
  length-entries_from ps,
)

-- One round, with what the later ones give.
step_lem :
    (t : HeapTable) (schema : TableSchema) (es : List (Result RecordView))
    (out : Cursor × Result RecordView) (rest : Option (Result (List (List Value)))) (n : ℕ)
    → All IsEntry es
    → Gives t es out
    → (length (entries t out.0) < n → rest ≡ some (decode_entries schema (entries t out.0)))
    → length es < suc n
    → scan_step schema out.1 rest ≡ some (decode_entries schema es)
unfolding scan_step
step_lem t schema [] (c, out) rest n w g ih h = rw g refl
step_lem t schema (err e ∷ es) (c, out) rest n w g ih h = rw (g.0) (rw (w.0) refl)
step_lem t schema (ok view ∷ es) (c, out) rest n w g ih h =
    let later : rest ≡ some (decode_entries schema es) = rw g.1 at (ih (rw g.1 (omega arith))) in
    rw (g.0, later)
      (elim (outcome (decode schema view.bytes)) [
        | succeeds row done ↦ rw done refl
        | fails e failed ↦ rw failed refl
      ])

scan_rows-entries :
    (n : ℕ) (t : HeapTable) (c : Cursor) (schema : TableSchema)
    → length (entries t c) < n
    → scan_rows n t c schema ≡ some (decode_entries schema (entries t c))
unfolding scan_rows
scan_rows-entries zero t c schema h = absurd (omega arith)
scan_rows-entries (suc n) t c schema h =
    step_lem t schema (entries t c) (next t c) (scan_rows n t (next t c).0 schema) n
      (entries_from-IsEntry (drop c.page_index t.pages) c.slot_id) (next-Gives t c)
      (scan_rows-entries n t (next t c).0 schema) h

abbrev pub first_slot : Cursor
first_slot = record { page_index = 0; slot_id = 0 }

-- A scan ends within a round for each slot and one more, and gives the rows of the table's records,
-- page by page and slot by slot, or the first failure to read or decode one.
pub scan_rows_lem :
    (t : HeapTable) (schema : TableSchema)
    → scan_rows (scan_limit t) t first_slot schema
      ≡ some (decode_entries schema (entries_from t.pages 0))
scan_rows_lem t schema =
    scan_rows-entries (scan_limit t) t first_slot schema
      (omega (arith, length-entries_from t.pages))

decode_entries-get :
    (schema : TableSchema) (es : List (Result RecordView)) (k : ℕ) {v : RecordView}
    {row : List Value} {rows : List (List Value)}
    → k < length es
    → get_or es k (err not_found) ≡ ok v
    → decode schema v.bytes ≡ ok row
    → decode_entries schema es ≡ ok rows
    → (k < length rows) × (get_or rows k [] ≡ row)
decode_entries-get schema [] k lt e d h = absurd (omega arith)
decode_entries-get schema (err c ∷ es) k lt e d h = absurd (cc h)
decode_entries-get schema (ok view ∷ es) zero {v} {row} {rows} lt e d h =
    let (first, decoded, rest) = bind-eq-ok (decode schema view.bytes) _ h in
    let (later, others, made) = bind-eq-ok (decode_entries schema es) _ rest in
    let same : view ≡ v = cc e in
    let row_same : first ≡ row = ground (arith, decoded, rw (← same) at d) in
    let all : first ∷ later ≡ rows = cc made in rw (← all) (omega arith, row_same)
decode_entries-get schema (ok view ∷ es) (suc k) {v} {row} {rows} lt e d h =
    let (first, decoded, rest) = bind-eq-ok (decode schema view.bytes) _ h in
    let (later, others, made) = bind-eq-ok (decode_entries schema es) _ rest in
    let (inside, there) = decode_entries-get schema es k (omega arith) e d others in
    let all : first ∷ later ≡ rows = cc made in rw (← all) (omega arith, there)

-- A row of the result, with its place.
abbrev pub Lists : List (List Value) → List Value → Type 0
Lists rows row = (k : ℕ) × (k < length rows) × (get_or rows k [] ≡ row)

-- The row of every record that `Read` gives is among the rows of a scan that succeeds.
pub scan_rows-read :
    (t : HeapTable) (schema : TableSchema) (id : RecordId) {v : RecordView} {row : List Value}
    {rows : List (List Value)}
    → read t id ≡ ok v
    → decode schema v.bytes ≡ ok row
    → scan_rows (scan_limit t) t first_slot schema ≡ some (ok rows)
    → Lists rows row
unfolding read
scan_rows-read t schema id {v} {row} {rows} found decoded scanned =
    let (k, inside, there) = entries_from-Contains t.pages id.page_id id.slot_id found in
    let all : decode_entries schema (entries_from t.pages 0) ≡ ok rows =
      cc (scan_rows_lem t schema, scanned) in
    let (within, same) =
      decode_entries-get schema (entries_from t.pages 0) k inside there decoded all in
    (k, within, same)
