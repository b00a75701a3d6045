-- ===== src/Storage/Heap/Pages.antt =====
-- `Insert` of a heap on its list of pages: the pages keep their numbers and the records they had.
use matt_sql.Prelude.{
  ℕ, ◌+◌, ◌≤◌, ◌≡◌, inl, inr, refl, sym, ap, ◌∙◌, List, [], ◌∷◌, ◌++◌, true, false, All, some,
  length, ◌==◌, arith, Bool-cases,
}
use matt_sql.Common.Status.{Result, ok}
use matt_sql.Storage.SlottedPage
use matt_sql.Storage.SlottedPage.{Page, RecordView}
use matt_sql.Storage.SlottedPage.Insertion.{insert-Inserted, read-insert_self, read-insert_other}
use matt_sql.Storage.ByteIo.LittleEndian.{IsByte}
use matt_sql.Storage.SlottedPage.Bytes.{insert-IsByte}
use matt_sql.Storage.SlottedPage.Cases.{insert_cases}
use matt_sql.Storage.Heap.{
  Search, placed, stopped, exhausted, is_invalid_argument, find_page, insert_in_pages, insert_round,
  read_found,
}

-- The pages are numbered without a gap.
abbrev pub HasIds : ℕ → List Page → Type 0
HasIds n [] = Unit
HasIds n (page ∷ pages) = (page.header.page_id ≡ n) × HasIds (n + 1) pages

abbrev pub HasBytes : Page → Type 0
HasBytes page = All IsByte page.bytes

abbrev pub read_in : List Page → ℕ → ℕ → Result RecordView
read_in pages page_id slot_id = read_found slot_id (find_page page_id pages)

insert_keeps_id :
    (p : Page) (r : List ℕ) {q : Page} {slot : ℕ}
    → SlottedPage.insert p r ≡ (q, ok slot)
    → q.header.page_id ≡ p.header.page_id
insert_keeps_id p r h = (insert-Inserted p r h).kept.0

-- A page of the list is replaced by one with the same number.
replaced :
    (p q : Page) (ps : List Page) (page_id slot_id : ℕ) {v : RecordView}
    → q.header.page_id ≡ p.header.page_id
    → (SlottedPage.read p slot_id ≡ ok v → SlottedPage.read q slot_id ≡ ok v)
    → read_in (p ∷ ps) page_id slot_id ≡ ok v
    → read_in (q ∷ ps) page_id slot_id ≡ ok v
unfolding find_page read_found
replaced p q ps page_id slot_id same k h = elim (Bool-cases (p.header.page_id == page_id)) [
  | inl here ↦
      let here' : (q.header.page_id == page_id) ≡ true = ap (λ n. n == page_id) same ∙ here in
      rw here' (k (rw here at h))
  | inr there ↦
      let there' : (q.header.page_id == page_id) ≡ false = ap (λ n. n == page_id) same ∙ there in
      rw there' (rw there at h)
]

-- The pages behind the first one are replaced.
behind :
    (p : Page) (ps qs : List Page) (page_id slot_id : ℕ) {v : RecordView}
    → (read_in ps page_id slot_id ≡ ok v → read_in qs page_id slot_id ≡ ok v)
    → read_in (p ∷ ps) page_id slot_id ≡ ok v
    → read_in (p ∷ qs) page_id slot_id ≡ ok v
unfolding find_page read_found
behind p ps qs page_id slot_id k h = elim (Bool-cases (p.header.page_id == page_id)) [
  | inl here ↦ rw here (rw here at h)
  | inr there ↦ rw there (k (rw there at h))
]

pub insert_in_pages-keeps :
    (ps : List Page) (r : List ℕ) (page_id slot_id : ℕ) {v : RecordView}
    → read_in ps page_id slot_id ≡ ok v
    → read_in (insert_in_pages ps r).0 page_id slot_id ≡ ok v
unfolding insert_in_pages insert_round
insert_in_pages-keeps [] r page_id slot_id h = h
insert_in_pages-keeps (p ∷ ps) r page_id slot_id h = elim (insert_cases p r) [
  | inl (q, slot, done) ↦ rw done (
      replaced p q ps page_id slot_id (insert_keeps_id p r done)
        (read-insert_other p r slot_id done) h)
  | inr (e, failed) ↦ rw failed (elim (Bool-cases (is_invalid_argument e)) [
    | inl more ↦ rw more (
        behind p ps (insert_in_pages ps r).0 page_id slot_id
          (insert_in_pages-keeps ps r page_id slot_id) h)
    | inr stop ↦ rw stop h
  ])
]

pub insert_in_pages-HasIds :
    (n : ℕ) (ps : List Page) (r : List ℕ) → HasIds n ps → HasIds n (insert_in_pages ps r).0
unfolding insert_in_pages insert_round
insert_in_pages-HasIds n [] r h = tt
insert_in_pages-HasIds n (p ∷ ps) r h = elim (insert_cases p r) [
  | inl (q, slot, done) ↦ rw done (insert_keeps_id p r done ∙ h.0, h.1)
  | inr (e, failed) ↦ rw failed (elim (Bool-cases (is_invalid_argument e)) [
    | inl more ↦ rw more (h.0, insert_in_pages-HasIds (n + 1) ps r h.1)
    | inr stop ↦ rw stop h
  ])
]

pub insert_in_pages-HasBytes :
    (ps : List Page) (r : List ℕ)
    → All HasBytes ps
    → All IsByte r
    → All HasBytes (insert_in_pages ps r).0
unfolding insert_in_pages insert_round
insert_in_pages-HasBytes [] r h k = tt
insert_in_pages-HasBytes (p ∷ ps) r h k = elim (insert_cases p r) [
  | inl (q, slot, done) ↦ rw done (insert-IsByte p r h.0 k done, h.1)
  | inr (e, failed) ↦ rw failed (elim (Bool-cases (is_invalid_argument e)) [
    | inl more ↦ rw more (h.0, insert_in_pages-HasBytes ps r h.1 k)
    | inr stop ↦ rw stop h
  ])
]

-- What the pages hold after `Insert` gave a slot: the record, in a page of the list.
abbrev pub Placed : ℕ → List ℕ → List Page × Search → Type 0
Placed n r (qs, placed id) =
    (n ≤ id.page_id)
    × (read_in qs id.page_id id.slot_id
        ≡ ok (record { page_id = id.page_id; slot_id = id.slot_id; bytes = r }))
Placed n r (qs, stopped e) = Unit
Placed n r (qs, exhausted) = Unit

Placed-here :
    (n : ℕ) (p : Page) (ps : List Page) (r : List ℕ) {q : Page} {slot : ℕ}
    → p.header.page_id ≡ n
    → SlottedPage.insert p r ≡ (q, ok slot)
    → Placed n r (q ∷ ps, placed (record { page_id = q.header.page_id; slot_id = slot }))
unfolding find_page read_found
Placed-here n p ps r {q} {slot} same done =
    let id = insert_keeps_id p r done in
    let here : (q.header.page_id == q.header.page_id) ≡ true = ground arith in
    (
      omega arith,
      rw here (
          read-insert_self p r done
          ∙ ap (λ m. ok (record { page_id = m; slot_id = slot; bytes = r })) (sym id)),
    )

Placed-behind :
    (n : ℕ) (p : Page) (qs : List Page) (r : List ℕ) (s : Search)
    → p.header.page_id ≡ n
    → Placed (n + 1) r (qs, s)
    → Placed n r (p ∷ qs, s)
unfolding find_page read_found
Placed-behind n p qs r (placed id) same (above, found) =
    let other : (p.header.page_id == id.page_id) ≡ false = ground arith in
    (omega arith, rw other found)
Placed-behind n p qs r (stopped e) same h = tt
Placed-behind n p qs r exhausted same h = tt

pub insert_in_pages-Placed :
    (n : ℕ) (ps : List Page) (r : List ℕ) → HasIds n ps → Placed n r (insert_in_pages ps r)
unfolding insert_in_pages insert_round
insert_in_pages-Placed n [] r h = tt
insert_in_pages-Placed n (p ∷ ps) r h = elim (insert_cases p r) [
  | inl (q, slot, done) ↦ rw done (Placed-here n p ps r h.0 done)
  | inr (e, failed) ↦ rw failed (elim (Bool-cases (is_invalid_argument e)) [
    | inl more ↦ rw more (
        Placed-behind n p (insert_in_pages ps r).0 r (insert_in_pages ps r).1 h.0
          (insert_in_pages-Placed (n + 1) ps r h.1))
    | inr stop ↦ rw stop tt
  ])
]

-- The number of a page that is appended is new.
pub find_page-append :
    (n : ℕ) (ps : List Page) (q : Page) (page_id : ℕ)
    → HasIds n ps
    → q.header.page_id ≡ n + length ps
    → page_id ≡ n + length ps
    → find_page page_id (ps ++ q ∷ []) ≡ some q
unfolding find_page
find_page-append n [] q page_id h same new =
    let here : (q.header.page_id == page_id) ≡ true = ground arith in rw here refl
find_page-append n (p ∷ ps) q page_id h same new =
    let other : (p.header.page_id == page_id) ≡ false = ground arith in
    rw other (find_page-append (n + 1) ps q page_id h.1 (omega arith) (omega arith))

pub read_in-append :
    (ps : List Page) (q : Page) (page_id slot_id : ℕ) {v : RecordView}
    → read_in ps page_id slot_id ≡ ok v
    → read_in (ps ++ q ∷ []) page_id slot_id ≡ ok v
unfolding find_page read_found
read_in-append [] q page_id slot_id h = absurd (cc h)
read_in-append (p ∷ ps) q page_id slot_id h =
    behind p ps (ps ++ q ∷ []) page_id slot_id (read_in-append ps q page_id slot_id) h

pub HasIds-append :
    (n : ℕ) (ps : List Page) (q : Page)
    → HasIds n ps
    → q.header.page_id ≡ n + length ps
    → HasIds n (ps ++ q ∷ [])
HasIds-append n [] q h same = (omega arith, tt)
HasIds-append n (p ∷ ps) q h same = (h.0, HasIds-append (n + 1) ps q h.1 (omega arith))
