-- ===== src/Storage/Heap/Scan.antt =====
-- The cursor of a heap: what its calls of `Next` give, against the list of the table's records.
use matt_sql.Prelude.{
  ℕ, zero, suc, ◌+◌, ◌-◌, ◌≤◌, ◌≡◌, refl, sym, ap, ◌∙◌, List, [], ◌∷◌, ◌++◌, drop, drop-drop,
  get_or, arith,
}
use matt_sql.Common.Status.{Result, ok, err, not_found}
use matt_sql.Storage.SlottedPage
use matt_sql.Storage.SlottedPage.{Page, RecordView, slot_count}
use matt_sql.Storage.Heap.{
  HeapTable, Cursor, SlotScan, hit, passed, scan_slots, scan_round, next_from, next_scanned, next,
}

abbrev pub add_entry : Result RecordView → List (Result RecordView) → List (Result RecordView)
add_entry (ok view) rest = ok view ∷ rest
add_entry (err not_found) rest = rest
add_entry (err e) rest = err e ∷ rest

-- What `Read` gives for the slots of a page, `n` of them from `slot_id` on, empty slots left out.
abbrev pub slot_entries : Page → ℕ → ℕ → List (Result RecordView)
slot_entries p slot_id zero = []
slot_entries p slot_id (suc n) =
    add_entry (SlottedPage.read p slot_id) (slot_entries p (slot_id + 1) n)

abbrev pub page_entries : Page → ℕ → List (Result RecordView)
page_entries p slot_id = slot_entries p slot_id (slot_count p - slot_id)

-- The records of the pages in order, from a slot of the first page on.
abbrev pub entries_from : List Page → ℕ → List (Result RecordView)
entries_from [] slot_id = []
entries_from (p ∷ ps) slot_id = page_entries p slot_id ++ entries_from ps 0

abbrev pub nth_result : HeapTable → Cursor → ℕ → Result RecordView
nth_result t c zero = (next t c).1
nth_result t c (suc k) = nth_result t (next t c).0 k

Scanned : Page → ℕ → ℕ → SlotScan → Type 0
Scanned p slot_id n (hit x behind) = slot_entries p slot_id n ≡ x ∷ page_entries p behind
Scanned p slot_id n passed = slot_entries p slot_id n ≡ []

Scanned-round :
    (p : Page) (slot_id n : ℕ) (x : Result RecordView) (s : SlotScan)
    → suc n ≡ slot_count p - slot_id
    → Scanned p (slot_id + 1) n s
    → SlottedPage.read p slot_id ≡ x
    → Scanned p slot_id (suc n) (scan_round x (slot_id + 1) s)
unfolding scan_round Scanned
Scanned-round p slot_id n (ok view) s end h e =
    let left : slot_count p - (slot_id + 1) ≡ n = omega arith in rw (e, left) refl
Scanned-round p slot_id n (err not_found) (hit x next) end h e = rw e h
Scanned-round p slot_id n (err not_found) passed end h e = rw e h
Scanned-round p slot_id n (err c) s end h e =
    let left : slot_count p - (slot_id + 1) ≡ n = omega arith in rw (e, left) refl

scan_slots-Scanned :
    (p : Page) (slot_id n : ℕ)
    → n ≡ slot_count p - slot_id
    → Scanned p slot_id n (scan_slots p slot_id n)
unfolding scan_slots Scanned
scan_slots-Scanned p slot_id zero end = refl
scan_slots-Scanned p slot_id (suc n) end =
    Scanned-round p slot_id n (SlottedPage.read p slot_id) (scan_slots p (slot_id + 1) n) end
      (scan_slots-Scanned p (slot_id + 1) n (omega arith)) refl

-- What is left to a cursor on pages that are numbered from `i` on.
abbrev left : List Page → ℕ → Cursor → List (Result RecordView)
left ps i c = entries_from (drop (c.page_index - i) ps) c.slot_id

-- One call of `Next` takes the first result off a list, or is at its end.
abbrev Takes : List Page → ℕ → List (Result RecordView) → Cursor × Result RecordView → Type 0
Takes ps i [] (c, out) = (i ≤ c.page_index) × (out ≡ err not_found) × (left ps i c ≡ [])
Takes ps i (x ∷ xs) (c, out) = (i ≤ c.page_index) × (out ≡ x) × (left ps i c ≡ xs)

Takes-behind :
    (p : Page) (ps : List Page) (i : ℕ) (es : List (Result RecordView))
    (out : Cursor × Result RecordView)
    → Takes ps (i + 1) es out
    → Takes (p ∷ ps) i es out
Takes-behind p ps i [] (c, out) (after, same, rest) =
    let step : c.page_index - i ≡ suc (c.page_index - (i + 1)) = omega arith in
    (omega arith, same, rw step rest)
Takes-behind p ps i (x ∷ xs) (c, out) (after, same, rest) =
    let step : c.page_index - i ≡ suc (c.page_index - (i + 1)) = omega arith in
    (omega arith, same, rw step rest)

Takes-Scanned :
    (p : Page) (ps : List Page) (i slot_id : ℕ) (s : SlotScan) (out : Cursor × Result RecordView)
    → Scanned p slot_id (slot_count p - slot_id) s
    → Takes ps (i + 1) (entries_from ps 0) out
    → Takes (p ∷ ps) i (entries_from (p ∷ ps) slot_id) (next_scanned i s out)
unfolding Scanned next_scanned
Takes-Scanned p ps i slot_id (hit x behind) out h k =
    let here : i - i ≡ 0 = omega arith in rw h (omega arith, refl, rw here refl)
Takes-Scanned p ps i slot_id passed out h k = rw h (Takes-behind p ps i (entries_from ps 0) out k)

next_from-Takes :
    (ps : List Page) (i slot_id : ℕ) → Takes ps i (entries_from ps slot_id) (next_from ps i slot_id)
unfolding next_from
next_from-Takes [] i slot_id =
    let here : i - i ≡ 0 = omega arith in (omega arith, refl, rw here refl)
next_from-Takes (p ∷ ps) i slot_id =
    Takes-Scanned p ps i slot_id (scan_slots p slot_id (slot_count p - slot_id))
      (next_from ps (i + 1) 0) (scan_slots-Scanned p slot_id (slot_count p - slot_id) refl)
      (next_from-Takes ps (i + 1) 0)

-- What a cursor has still to give.
abbrev pub entries : HeapTable → Cursor → List (Result RecordView)
entries t c = entries_from (drop c.page_index t.pages) c.slot_id

left-drop :
    (ps : List Page) (c c' : Cursor)
    → c.page_index ≤ c'.page_index
    → left (drop c.page_index ps) c.page_index c' ≡ entries_from (drop c'.page_index ps) c'.slot_id
left-drop ps c c' h =
    ap (λ qs. entries_from qs c'.slot_id)
      (drop-drop (c'.page_index - c.page_index) c.page_index ps ∙ ap (λ n. drop n ps) (omega arith))

Takes-first :
    (ps : List Page) (i : ℕ) (es : List (Result RecordView)) (out : Cursor × Result RecordView)
    → Takes ps i es out
    → out.1 ≡ get_or es 0 (err not_found)
Takes-first ps i [] out h = h.1
Takes-first ps i (x ∷ xs) out h = h.1

Takes-next :
    (t : HeapTable) (c : Cursor) (es : List (Result RecordView)) (k : ℕ)
    → ((c' : Cursor) → nth_result t c' k ≡ get_or (entries t c') k (err not_found))
    → Takes (drop c.page_index t.pages) c.page_index es (next t c)
    → nth_result t (next t c).0 k ≡ get_or es (suc k) (err not_found)
Takes-next t c [] k ih (after, same, rest) =
    ih (next t c).0
    ∙ ap (λ es. get_or es k (err not_found)) (sym (left-drop t.pages c (next t c).0 after) ∙ rest)
Takes-next t c (x ∷ xs) k ih (after, same, rest) =
    ih (next t c).0
    ∙ ap (λ es. get_or es k (err not_found)) (sym (left-drop t.pages c (next t c).0 after) ∙ rest)

next-Takes :
    (t : HeapTable) (c : Cursor)
    → Takes (drop c.page_index t.pages) c.page_index (entries t c) (next t c)
unfolding next
next-Takes t c = next_from-Takes (drop c.page_index t.pages) c.page_index c.slot_id

-- Call `k` of `Next`, counted from 0, gives the `k`th of the records that `Read` gives for the slots
-- behind the cursor, page by page and slot by slot, and past the last of them NotFound.
pub nth_result_lem :
    (t : HeapTable) (c : Cursor) (k : ℕ) → nth_result t c k ≡ get_or (entries t c) k (err not_found)
nth_result_lem t c zero =
    Takes-first (drop c.page_index t.pages) c.page_index (entries t c) (next t c) (next-Takes t c)
nth_result_lem t c (suc k) =
    Takes-next t c (entries t c) k (λ c'. nth_result_lem t c' k) (next-Takes t c)

-- What one call of `Next` does with the records that are left.
abbrev pub Gives : HeapTable → List (Result RecordView) → Cursor × Result RecordView → Type 0
Gives t [] (c, out) = out ≡ err not_found
Gives t (x ∷ xs) (c, out) = (out ≡ x) × (entries t c ≡ xs)

Gives-Takes :
    (t : HeapTable) (c : Cursor) (es : List (Result RecordView)) (out : Cursor × Result RecordView)
    → Takes (drop c.page_index t.pages) c.page_index es out
    → Gives t es out
Gives-Takes t c [] (c', out) (after, same, rest) = same
Gives-Takes t c (x ∷ xs) (c', out) (after, same, rest) =
    (same, sym (left-drop t.pages c c' after) ∙ rest)

pub next-Gives : (t : HeapTable) (c : Cursor) → Gives t (entries t c) (next t c)
next-Gives t c = Gives-Takes t c (entries t c) (next t c) (next-Takes t c)
