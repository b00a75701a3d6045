-- ===== src/Storage/Heap/Removal.antt =====
-- `Delete` of a heap: the record is gone, and every other one stays.
use matt_sql.Prelude.{
  ℕ, ◌+◌, ◌≡◌, ◌≢◌, ◌⊎◌, inl, inr, sym, ap, ◌∙◌, List, [], ◌∷◌, true, false, All, ◌==◌, arith,
  Bool-cases,
}
use matt_sql.Common.Status.{ok, err, not_found, outcome, succeeds, fails}
use matt_sql.Storage.SlottedPage
use matt_sql.Storage.SlottedPage.{Page, RecordView}
use matt_sql.Storage.SlottedPage.Deletion.{delete_parts}
use matt_sql.Storage.SlottedPage.Bytes.{delete-IsByte}
use matt_sql.Storage.Heap.{
  HeapTable, RecordId, delete, delete_in_pages, delete_counted, read, find_page, read_found,
}
use matt_sql.Storage.Heap.Pages.{HasBytes, HasIds, read_in}
use matt_sql.Storage.Heap.Records.{IsHeap}

-- What a successful `Delete` on the pages leaves.
record Removed (n : ℕ) (ps : List Page) (page_id slot_id : ℕ) (qs : List Page) : Type 0 where
  pub ids : HasIds n ps → HasIds n qs
  pub bytes : All HasBytes qs
  pub gone : read_in qs page_id slot_id ≡ err not_found
  pub others :
      (page_id' slot_id' : ℕ)
      → (v : RecordView) → (page_id ≢ page_id') ⊎ (slot_id ≢ slot_id')
      → read_in ps page_id' slot_id' ≡ ok v
      → read_in qs page_id' slot_id' ≡ ok v

Removed-here :
    (n : ℕ) (p : Page) (ps : List Page) (page_id slot_id : ℕ) {q : Page}
    → All HasBytes (p ∷ ps)
    → p.header.page_id ≡ page_id
    → SlottedPage.delete p slot_id ≡ (q, ok tt)
    → Removed n (p ∷ ps) page_id slot_id (q ∷ ps)
unfolding find_page read_found
Removed-here n p ps page_id slot_id {q} w same done =
    let (gone, valid, header, others) = delete_parts p slot_id w.0 done in
    let same' : q.header.page_id ≡ page_id = ap (λ h. h.page_id) header ∙ same in
    let here : (q.header.page_id == page_id) ≡ true = ground arith in
    record {
      ids = λ h. (same' ∙ sym same ∙ h.0, h.1);
      bytes = (delete-IsByte p slot_id w.0 done, w.1);
      gone = rw here gone;
      others = λ page_id' slot_id' v differ k. elim (Bool-cases (p.header.page_id == page_id')) [
        | inl here' ↦
            let here'' : (q.header.page_id == page_id') ≡ true = ground arith in
            let page_same : page_id ≡ page_id' = ground arith in
            let slot_differs : slot_id ≢ slot_id' =
              λ e. elim differ [ inl d ↦ d page_same | inr d ↦ d e ] in
            rw here'' (others slot_id' v slot_differs (rw here' at k))
        | inr there ↦
            let there' : (q.header.page_id == page_id') ≡ false = ground arith in
            rw there' (rw there at k)
      ];
    }

Removed-behind :
    (n : ℕ) (p : Page) (ps qs : List Page) (page_id slot_id : ℕ)
    → HasBytes p
    → (p.header.page_id == page_id) ≡ false
    → Removed (n + 1) ps page_id slot_id qs
    → Removed n (p ∷ ps) page_id slot_id (p ∷ qs)
unfolding find_page read_found
Removed-behind n p ps qs page_id slot_id w other r = record {
  ids = λ h. (h.0, r.ids h.1);
  bytes = (w, r.bytes);
  gone = rw other r.gone;
  others = λ page_id' slot_id' v differ k. elim (Bool-cases (p.header.page_id == page_id')) [
    | inl here ↦ rw here (rw here at k)
    | inr there ↦ rw there (r.others page_id' slot_id' v differ (rw there at k))
  ];
}

delete_in_pages-Removed :
    (n : ℕ) (ps : List Page) (page_id slot_id : ℕ)
    → All HasBytes ps
    → (delete_in_pages ps page_id slot_id).1 ≡ ok tt
    → Removed n ps page_id slot_id (delete_in_pages ps page_id slot_id).0
unfolding delete_in_pages
delete_in_pages-Removed n [] page_id slot_id w h = absurd (cc h)
delete_in_pages-Removed n (p ∷ ps) page_id slot_id w h =
    elim (Bool-cases (p.header.page_id == page_id)) [
      | inl here ↦ rw here (
          Removed-here n p ps page_id slot_id w (ground arith)
            (ap (λ x. ((SlottedPage.delete p slot_id).0, x)) (rw here at h)))
      | inr there ↦ rw there (
          Removed-behind n p ps _ page_id slot_id w.0 there
            (delete_in_pages-Removed (n + 1) ps page_id slot_id w.1 (rw there at h)))
    ]

delete_lem :
    (t : HeapTable) (id : RecordId) {t' : HeapTable} {u : Unit {0}}
    → delete t id ≡ (t', ok u)
    → ((delete_in_pages t.pages id.page_id id.slot_id).1 ≡ ok tt)
      × (t'.root_page_id ≡ t.root_page_id)
      × (t'.pages ≡ (delete_in_pages t.pages id.page_id id.slot_id).0)
unfolding delete delete_counted
delete_lem t id h = elim (outcome (delete_in_pages t.pages id.page_id id.slot_id).1) [
  | succeeds u done ↦ (done, ground arith, ground arith)
  | fails e failed ↦ absurd (ground arith)
]

apart : (a b : RecordId) → a ≢ b → (a.page_id ≢ b.page_id) ⊎ (a.slot_id ≢ b.slot_id)
apart a b h = elim (Bool-cases (a.page_id == b.page_id)) [
  | inr differ ↦ inl (λ e. ground arith)
  | inl same ↦ inr (λ slot.
      let page : a.page_id ≡ b.page_id = ground arith in
      h (λ i. record { page_id = page i; slot_id = slot i }))
]

delete_parts_of :
    (t : HeapTable) (id : RecordId) {t' : HeapTable} {u : Unit {0}}
    → IsHeap t
    → delete t id ≡ (t', ok u)
    → IsHeap t'
      × (read t' id ≡ err not_found)
      × ((id' : RecordId) (v : RecordView) → id ≢ id' → read t id' ≡ ok v → read t' id' ≡ ok v)
unfolding read
delete_parts_of t id {t'} h e =
    let (done, root, pages) = delete_lem t id e in
    let r = delete_in_pages-Removed t.root_page_id t.pages id.page_id id.slot_id h.bytes done in
    (
      record {
        root = rw root h.root;
        ids = rw (root, pages) (r.ids h.ids);
        bytes = rw pages r.bytes;
      },
      rw pages r.gone,
      λ id' v differ k. rw pages (r.others id'.page_id id'.slot_id v (apart id id' differ) k),
    )

-- On a heap whose pages are numbered from its root on without a gap and hold bytes, a successful
-- `Delete` leaves an id that reads as not found, and such a heap.
pub read-delete_self :
    (t : HeapTable) (id : RecordId) {t' : HeapTable} {u : Unit {0}}
    → IsHeap t
    → delete t id ≡ (t', ok u)
    → IsHeap t' × (read t' id ≡ err not_found)
read-delete_self t id h e = let (heap, gone, others) = delete_parts_of t id h e in (heap, gone)

-- On a heap whose pages are numbered from its root on without a gap and hold bytes, a successful
-- `Delete` leaves every record that could be read under another id.
pub read-delete_other :
    (t : HeapTable) (id other : RecordId) {t' : HeapTable} {u : Unit {0}} {v : RecordView}
    → IsHeap t
    → delete t id ≡ (t', ok u)
    → id ≢ other
    → read t other ≡ ok v
    → read t' other ≡ ok v
read-delete_other t id other {v} h e differ r = (delete_parts_of t id h e).2 other v differ r
