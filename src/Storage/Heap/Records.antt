-- ===== src/Storage/Heap/Records.antt =====
-- `Insert` and `Delete` of a heap: what `Read` returns afterwards.
use matt_sql.Prelude.{
  ℕ, ◌+◌, ◌-◌, ◌^◌, ◌<◌, ◌≡◌, inl, inr, refl, sym, ap, ◌∙◌, List, false, All, All-snoc, length, ltb,
  ◌==◌, arith, Bool-cases,
}
use matt_sql.Common.Status.{Result, ok, err, outcome, succeeds, fails, bind-eq-ok}
use matt_sql.Storage.SlottedPage
use matt_sql.Storage.SlottedPage.{Page, RecordView, heap, initialize}
use matt_sql.Storage.SlottedPage.Insertion.{insert-Inserted, read-insert_self}
use matt_sql.Storage.ByteIo.LittleEndian.{IsByte}
use matt_sql.Storage.SlottedPage.Bytes.{insert-IsByte, replicate-IsByte}
use matt_sql.Storage.SlottedPage.Cases.{insert_cases}
use matt_sql.Storage.Heap.{
  HeapTable, RecordId, Search, placed, stopped, exhausted, allocate_page, new_frame, next_page_id,
  invalid_page_id, insert_allocated, insert_searched, insert, read, insert_in_pages,
  insert_in_new_page, read_found,
}
use matt_sql.Storage.Heap.Pages.{
  HasBytes, HasIds, HasIds-append, insert_in_pages-HasBytes, Placed, read_in, read_in-append,
  find_page-append, insert_in_pages-HasIds, insert_in_pages-Placed, insert_in_pages-keeps,
}

-- The pages of a table are numbered from its root on, without a gap, and hold bytes.
pub record IsHeap (table : HeapTable) : Type 0 where
  pub root : table.root_page_id < 2 ^ 64
  pub ids : HasIds table.root_page_id table.pages
  pub bytes : All HasBytes table.pages

initialize_keeps_id : (p : Page) → (initialize p heap).0.header.page_id ≡ p.header.page_id
unfolding initialize
initialize_keeps_id p = ground arith

initialize-HasBytes : (p : Page) → HasBytes p → HasBytes (initialize p heap).0
unfolding initialize
initialize-HasBytes p h = ground (arith, h, replicate-IsByte (length p.bytes))

allocate_page_lem :
    (t : HeapTable) {q : Page}
    → t.root_page_id < 2 ^ 64
    → allocate_page t ≡ ok q
    → (q.header.page_id ≡ t.root_page_id + length t.pages) × HasBytes q
unfolding allocate_page new_frame next_page_id
allocate_page_lem t {q} small h = elim (Bool-cases (t.root_page_id == invalid_page_id)) [
  | inl invalid ↦ absurd (ground arith)
  | inr valid ↦ elim (Bool-cases (t.page_size == 0)) [
    | inl empty ↦ absurd (ground arith)
    | inr sized ↦ elim (Bool-cases (ltb (invalid_page_id - 1 - t.root_page_id) (length t.pages))) [
      | inl too_many ↦ absurd (ground arith)
      | inr room ↦
          let p = new_frame (next_page_id t) t.page_size in
          let (u, done, same) =
            bind-eq-ok (initialize p heap).1 (λ done. ok (initialize p heap).0)
              (rw (valid, sized, room) at h) in
          let q_same : (initialize p heap).0 ≡ q = cc same in
          let q_id = ap (λ x. x.header.page_id) q_same in
          let id = initialize_keeps_id p in
          let range : ltb (invalid_page_id - 1 - t.root_page_id) (length t.pages) ≡ false = room in
          let fits : t.root_page_id + length t.pages < 2 ^ 64 = ground arith in
          (omega arith, rw q_same at (initialize-HasBytes p (replicate-IsByte t.page_size)))
    ]
  ]
]

abbrev Stored : List ℕ → HeapTable × Result RecordId → Type 0
Stored r (t, ok id) =
    read t id ≡ ok (record { page_id = id.page_id; slot_id = id.slot_id; bytes = r })
Stored r (t, err e) = Unit

-- What an `Insert` must leave behind: a heap that still reads every record, and the new one.
record Kept (t : HeapTable) (r : List ℕ) (out : HeapTable × Result RecordId) : Type 0 where
  pub root : out.0.root_page_id ≡ t.root_page_id
  pub heap : IsHeap out.0
  pub others : (id : RecordId) {v : RecordView} → read t id ≡ ok v → read out.0 id ≡ ok v
  pub stored : Stored r out

new_page-Kept :
    (t : HeapTable) (r : List ℕ) (q : Page)
    → IsHeap t
    → All IsByte r
    → q.header.page_id ≡ t.root_page_id + length t.pages
    → HasBytes q
    → Kept t r (insert_in_new_page t (SlottedPage.insert q r))
unfolding insert_in_new_page read read_found
new_page-Kept t r q h w same w' = elim (insert_cases q r) [
  | inl (q', slot, done) ↦ rw done (
      let kept = (insert-Inserted q r done).kept.0 in
      let id : q'.header.page_id ≡ t.root_page_id + length t.pages = kept ∙ same in
      record {
        root = refl;
        heap = record {
          root = h.root;
          ids = HasIds-append t.root_page_id t.pages q' h.ids id;
          bytes = All-snoc HasBytes t.pages q' h.bytes (insert-IsByte q r w' w done);
        };
        others = λ other k. read_in-append t.pages q' other.page_id other.slot_id k;
        stored = rw (find_page-append t.root_page_id t.pages q' q'.header.page_id h.ids id id) (
            read-insert_self q r done
            ∙ ap (λ m. ok (record { page_id = m; slot_id = slot; bytes = r })) (sym kept));
      })
  | inr (e, failed) ↦
      rw failed (record { root = refl; heap = h; others = λ other k. k; stored = tt })
]

allocated-Kept :
    (t : HeapTable) (r : List ℕ)
    → IsHeap t
    → All IsByte r
    → Kept t r (insert_allocated t r (allocate_page t))
unfolding insert_allocated
allocated-Kept t r h w = elim (outcome (allocate_page t)) [
  | succeeds q done ↦
      let (same, w') = allocate_page_lem t h.root done in rw done (new_page-Kept t r q h w same w')
  | fails e failed ↦
      rw failed (record { root = refl; heap = h; others = λ other k. k; stored = tt })
]

searched-Kept :
    (t : HeapTable) (r : List ℕ) (qs : List Page) (s : Search)
    → IsHeap (record t { pages = qs })
    → All IsByte r
    → ((id : RecordId)
        → (v : RecordView) → read t id ≡ ok v
        → read_in qs id.page_id id.slot_id ≡ ok v)
    → Placed t.root_page_id r (qs, s)
    → Kept t r (insert_searched t r (qs, s))
unfolding insert_searched read
searched-Kept t r qs (placed id) h w keeps found = record {
  root = refl;
  heap = record { root = h.root; ids = h.ids; bytes = h.bytes };
  others = λ id {v} k. keeps id v k;
  stored = found.1;
}
searched-Kept t r qs (stopped e) h w keeps found = record {
  root = refl;
  heap = h;
  others = λ id {v} k. keeps id v k;
  stored = tt;
}
searched-Kept t r qs exhausted h w keeps found =
    let k = allocated-Kept (record t { pages = qs }) r h w in
    record {
      root = k.root;
      heap = k.heap;
      others = λ id {v} k'. k.others id (keeps id v k');
      stored = k.stored;
    }

insert-Kept : (t : HeapTable) (r : List ℕ) → IsHeap t → All IsByte r → Kept t r (insert t r)
unfolding insert read
insert-Kept t r h w =
    searched-Kept t r (insert_in_pages t.pages r).0 (insert_in_pages t.pages r).1
      (record {
        root = h.root;
        ids = insert_in_pages-HasIds t.root_page_id t.pages r h.ids;
        bytes = insert_in_pages-HasBytes t.pages r h.bytes w;
      })
      w (λ id v k. insert_in_pages-keeps t.pages r id.page_id id.slot_id k)
      (insert_in_pages-Placed t.root_page_id t.pages r h.ids)

-- On a heap whose pages are numbered from its root on without a gap and hold bytes, a successful
-- `Insert` of bytes gives an id under which `Read` returns them, and leaves such a heap.
pub read-insert_stored :
    (t : HeapTable) (r : List ℕ) {t' : HeapTable} {id : RecordId}
    → IsHeap t
    → All IsByte r
    → insert t r ≡ (t', ok id)
    → IsHeap t'
      × (read t' id ≡ ok (record { page_id = id.page_id; slot_id = id.slot_id; bytes = r }))
read-insert_stored t r {t'} {id} h w e =
    let k : Kept t r (t', ok id) = rw e at (insert-Kept t r h w) in (k.heap, k.stored)

-- On a heap whose pages are numbered from its root on without a gap and hold bytes, `Insert` of
-- bytes, whether it succeeds or fails, leaves every record that could be read under its id, and such
-- a heap.
pub read-insert_kept :
    (t : HeapTable) (r : List ℕ) (id : RecordId) {v : RecordView}
    → IsHeap t
    → All IsByte r
    → read t id ≡ ok v
    → IsHeap (insert t r).0 × (read (insert t r).0 id ≡ ok v)
read-insert_kept t r id h w e = let k = insert-Kept t r h w in (k.heap, k.others id e)
