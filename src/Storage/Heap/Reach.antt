-- ===== src/Storage/Heap/Reach.antt =====
-- A scan of a heap reaches every record that its `Read` gives.
use matt_sql.Prelude.{
  ℕ, zero, suc, ◌+◌, ◌-◌, ◌≤◌, ◌<◌, ◌≡◌, inl, inr, refl, ◌∙◌, List, [], ◌∷◌, ◌++◌, length,
  length-append, get_or-append_left, get_or-append_right, Bool-cases, ◌==◌, get_or, arith,
}
use matt_sql.Common.Status.{Result, ok, err, not_found}
use matt_sql.Storage.SlottedPage
use matt_sql.Storage.SlottedPage.{Page, RecordView, slot_count}
use matt_sql.Storage.SlottedPage.Live.{read-IsLive, IsValid-validate_page}
use matt_sql.Storage.Heap.Pages.{read_in}
use matt_sql.Storage.Heap.{RecordId, read, find_page, read_found, HeapTable}
use matt_sql.Storage.Heap.Scan.{
  add_entry, slot_entries, page_entries, entries_from, nth_result, nth_result_lem,
}

-- An element of the list, with its place.
abbrev pub Contains : List (Result RecordView) → RecordView → Type 0
Contains es v = (k : ℕ) × (k < length es) × (get_or es k (err not_found) ≡ ok v)

Contains-left :
    (es fs : List (Result RecordView)) (v : RecordView) → Contains es v → Contains (es ++ fs) v
Contains-left es fs v (k, h, e) =
    (k, omega (arith, length-append es fs), get_or-append_left es fs k (err not_found) h ∙ e)

Contains-right :
    (es fs : List (Result RecordView)) (v : RecordView) → Contains fs v → Contains (es ++ fs) v
Contains-right es fs v (k, h, e) = (
  length es + k,
  omega (arith, length-append es fs),
  get_or-append_right es fs k (err not_found) ∙ e,
)

Contains-add_entry :
    (x : Result RecordView) (es : List (Result RecordView)) (v : RecordView)
    → Contains es v
    → Contains (add_entry x es) v
Contains-add_entry (ok view) es v (k, h, e) = (suc k, omega arith, e)
Contains-add_entry (err not_found) es v c = c
Contains-add_entry (err e) es v (k, h, e') = (suc k, omega arith, e')

slot_entries-Contains :
    (p : Page) (i n j : ℕ) (v : RecordView)
    → i ≤ j
    → j < i + n
    → SlottedPage.read p j ≡ ok v
    → Contains (slot_entries p i n) v
slot_entries-Contains p i zero j v lo hi e = absurd (omega arith)
slot_entries-Contains p i (suc n) j v lo hi e = elim (Bool-cases (i == j)) [
  | inl here ↦ let same : i ≡ j = ground arith in rw (same, e) (0, omega arith, refl)
  | inr there ↦
      Contains-add_entry (SlottedPage.read p i) (slot_entries p (i + 1) n) v
        (slot_entries-Contains p (i + 1) n j v (ground arith) (omega arith) e)
]

read-slot_count :
    (p : Page) (j : ℕ) {v : RecordView} → SlottedPage.read p j ≡ ok v → j < slot_count p
unfolding SlottedPage.slot_count
read-slot_count p j h =
    let (e, l, same) = read-IsLive p j h in
    rw (slot_count, IsValid-validate_page p l.valid) l.counted

pub entries_from-Contains :
    (ps : List Page) (page_id slot_id : ℕ) {v : RecordView}
    → read_in ps page_id slot_id ≡ ok v
    → Contains (entries_from ps 0) v
unfolding find_page read_found
entries_from-Contains [] page_id slot_id h = absurd (cc h)
entries_from-Contains (p ∷ ps) page_id slot_id {v} h =
    elim (Bool-cases (p.header.page_id == page_id)) [
      | inl here ↦
          let found = rw here at h in
          Contains-left (page_entries p 0) (entries_from ps 0) v (
            slot_entries-Contains p 0 (slot_count p - 0) slot_id v (omega arith)
              (omega (arith, read-slot_count p slot_id found)) found)
      | inr there ↦
          Contains-right (page_entries p 0) (entries_from ps 0) v
            (entries_from-Contains ps page_id slot_id (rw there at h))
    ]

-- A new cursor reaches every record that `Read` gives for some id.
pub nth_result-read :
    (t : HeapTable) (id : RecordId) {v : RecordView}
    → read t id ≡ ok v
    → (k : ℕ) × (nth_result t (record { page_index = 0; slot_id = 0 }) k ≡ ok v)
unfolding read
nth_result-read t id h =
    let (k, inside, e) = entries_from-Contains t.pages id.page_id id.slot_id h in
    (k, nth_result_lem t (record { page_index = 0; slot_id = 0 }) k ∙ e)
