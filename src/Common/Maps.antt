-- ===== src/Common/Maps.antt =====
-- `std::unordered_map` as the code uses it: an association list, in which a key stands once.
use matt_sql.Prelude.{
  ◌≡◌, refl, Bool, true, false, Option, none, some, List, [], ◌∷◌, ◌==◌, if◌then◌else◌, inl, inr,
  Bool-cases, ℕ, arith,
}

abbrev pub Map {ℓ κ} : Type ℓ → Type κ → Type (ℓ ⊔ κ)
Map K V = List (K × V)

-- The equality test of a type of keys, with its laws.
pub record KeyEq {ℓ} (K : Type ℓ) : Type ℓ where
  pub test : K → K → Bool
  pub sound : (a b : K) → test a b ≡ true → a ≡ b
  pub complete : (a : K) → test a a ≡ true

pub number_sound : (a b : ℕ) → (a == b) ≡ true → a ≡ b
number_sound a b h = ground arith

pub number_complete : (a : ℕ) → (a == a) ≡ true
number_complete a = ground arith

abbrev pub number_eq : KeyEq ℕ
number_eq = record { test = λ a b. a == b; sound = number_sound; complete = number_complete }

abbrev pub is_found {ℓ} : {A : Type ℓ} → Option A → Bool
is_found none = false
is_found (some a) = true

module _ {ℓ κ} {K : Type ℓ} {V : Type κ} (E : KeyEq K) where
  unfoldable pub find : Map K V → K → Option V
  find [] key = none
  find ((k, v) ∷ entries) key = let rest = find entries key in if E.test k key then some v else rest

  abbrev pub contains : Map K V → K → Bool
  contains map key = is_found (find map key)

  -- The callers of `emplace` have tested that the key is new.
  abbrev pub emplace : Map K V → K → V → Map K V
  emplace map key value = (key, value) ∷ map

  unfoldable pub erase : Map K V → K → Map K V
  erase [] key = []
  erase ((k, v) ∷ entries) key =
      let rest = erase entries key in if E.test k key then rest else (k, v) ∷ rest

  -- `iter->second = value` at the key's entry.
  unfoldable pub assign : Map K V → K → V → Map K V
  assign [] key value = []
  assign ((k, v) ∷ entries) key value =
      let rest = assign entries key value in
      if E.test k key then (k, value) ∷ entries else (k, v) ∷ rest

module _ {ℓ} {K : Type ℓ} (E : KeyEq K) where
  -- Two tests on one key agree.
  test_trans : (a b c : K) → E.test a b ≡ true → E.test b c ≡ false → E.test a c ≡ false
  test_trans a b c h k = rw (E.sound a b h) k

module _ {ℓ κ} {K : Type ℓ} {V : Type κ} (E : KeyEq K) where
  pub find-emplace_self : (m : Map K V) (k : K) (v : V) → find E (emplace E m k v) k ≡ some v
  unfolding find
  find-emplace_self m k v = rw (E.complete k) refl

  pub find-emplace_other :
      (m : Map K V) (k j : K) (v : V) → E.test k j ≡ false → find E (emplace E m k v) j ≡ find E m j
  unfolding find
  find-emplace_other m k j v h = rw h refl

  pub find-erase_self : (m : Map K V) (k : K) → find E (erase E m k) k ≡ none
  unfolding find erase
  find-erase_self [] k = refl
  find-erase_self ((j, v) ∷ m) k = elim (Bool-cases (E.test j k)) [
    | inl same ↦ rw (erase, same) (find-erase_self m k)
    | inr other ↦ rw (erase, other) (rw (find, other) (find-erase_self m k))
  ]

  pub find-erase_other :
      (m : Map K V) (k j : K) → E.test k j ≡ false → find E (erase E m k) j ≡ find E m j
  unfolding find erase
  find-erase_other [] k j h = refl
  find-erase_other ((i, v) ∷ m) k j h = elim (Bool-cases (E.test i k)) [
    | inl same ↦ rw (erase, same) (rw (find, test_trans E i k j same h) (find-erase_other m k j h))
    | inr other ↦
        rw (erase, other)
          (elim (Bool-cases (E.test i j)) [
            | inl here ↦ rw (find, here) refl
            | inr there ↦ rw (find, there) (find-erase_other m k j h)
          ])
  ]

  pub find-assign_self :
      (m : Map K V) (k : K) (v : V) {w : V}
      → find E m k ≡ some w
      → find E (assign E m k v) k ≡ some v
  unfolding find assign
  find-assign_self [] k v h = absurd (cc h)
  find-assign_self ((j, u) ∷ m) k v h = elim (Bool-cases (E.test j k)) [
    | inl same ↦ rw (assign, same) (rw (find, same) refl)
    | inr other ↦
        rw (assign, other) (rw (find, other) (find-assign_self m k v (rw (find, other) at h)))
  ]

  pub find-assign_other :
      (m : Map K V) (k j : K) (v : V) → E.test k j ≡ false → find E (assign E m k v) j ≡ find E m j
  unfolding find assign
  find-assign_other [] k j v h = refl
  find-assign_other ((i, u) ∷ m) k j v h = elim (Bool-cases (E.test i k)) [
    | inl same ↦ rw (assign, same) (rw (find, test_trans E i k j same h) refl)
    | inr other ↦
        rw (assign, other)
          (elim (Bool-cases (E.test i j)) [
            | inl here ↦ rw (find, here) refl
            | inr there ↦ rw (find, there) (find-assign_other m k j v h)
          ])
  ]
