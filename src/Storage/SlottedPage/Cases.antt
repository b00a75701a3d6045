-- ===== src/Storage/SlottedPage/Cases.antt =====
-- `Insert` of a slotted page: when it succeeds, and that a failing one leaves the page.
use matt_sql.Prelude.{
  ltb, if◌then◌else◌, ℕ, ◌+◌, ◌-◌, ◌≤◌, ◌≡◌, inl, inr, refl, List, ◌⊎◌, Option, none, some, length,
  arith, Bool-cases,
}
use matt_sql.Common.Status.{ErrorCode, invalid_argument, ok, err, outcome, succeeds, fails}
use matt_sql.Storage.SlottedPage.{
  slot_space, Page, validate_page, header_slot_count, insert, insert_slot, insert_checked,
  find_deleted_slot, uint16,
}
use matt_sql.Storage.SlottedPage.Live.{IsValid, IsValid-validate_page}

insert_room :
    (p : Page) (r : List ℕ) (o : Option ℕ)
    → length r + 6 ≤ p.header.upper - p.header.lower
    → (q : Page) × (slot : ℕ) × (insert_checked p r o ≡ (q, ok slot))
unfolding insert_checked
insert_room p r (some k) h = ((insert_slot p r (some k)).0, k, ground arith)
insert_room p r none h =
    ((insert_slot p r none).0, uint16 (header_slot_count p.header), ground arith)

-- `Insert` succeeds on a valid page with free space for the record and a slot entry.
pub insert_total :
    (p : Page) (r : List ℕ)
    → IsValid p
    → length r + 6 ≤ p.header.upper - p.header.lower
    → (q : Page) × (slot : ℕ) × (insert p r ≡ (q, ok slot))
unfolding insert
insert_total p r v h =
    let (q, slot, done) = insert_room p r (find_deleted_slot p) h in
    (q, slot, rw (IsValid-validate_page p v) (ground (arith, v.inside, v.small)))

slot_cases :
    (p : Page) (r : List ℕ) (o : Option ℕ)
    → (q : Page) × (slot : ℕ) × (insert_slot p r o ≡ (q, ok slot))
unfolding insert_slot
slot_cases p r (some k) = (_, _, refl)
slot_cases p r none = (_, _, refl)

checked_cases :
    (p : Page) (r : List ℕ) (o : Option ℕ)
    → ((q : Page) × (slot : ℕ) × ((if ltb 65535 (length r)
            then (p, err invalid_argument)
            else insert_checked p r o)
          ≡ (q, ok slot)))
      ⊎ ((e : ErrorCode) × ((if ltb 65535 (length r)
              then (p, err invalid_argument)
              else insert_checked p r o)
            ≡ (p, err e)))
unfolding insert_checked
checked_cases p r o = elim (Bool-cases (ltb 65535 (length r))) [
  | inl long ↦ inr (invalid_argument, rw long)
  | inr short ↦
      rw short
        (elim (Bool-cases (ltb (p.header.upper - p.header.lower) (length r + slot_space o))) [
          | inl full ↦ inr (invalid_argument, rw full)
          | inr room ↦ inl (rw room (slot_cases p r o))
        ])
]

-- To split on what `Insert` does: it fails and leaves the page, or returns a slot.
pub insert_cases :
    (p : Page) (r : List ℕ)
    → ((q : Page) × (slot : ℕ) × (insert p r ≡ (q, ok slot)))
      ⊎ ((e : ErrorCode) × (insert p r ≡ (p, err e)))
unfolding insert
insert_cases p r = elim (outcome (validate_page p)) [
  | fails e failed ↦ inr (e, ground arith)
  | succeeds u done ↦ rw done (checked_cases p r (find_deleted_slot p))
]
