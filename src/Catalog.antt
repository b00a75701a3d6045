-- ===== src/Catalog.antt =====
-- src/catalog/hosted_catalog_api.cpp and src/catalog/in_memory_catalog.cpp: the catalog of tables and
-- indexes. Names are keys in lower case.
pub mod Hosted
pub mod Tables
pub mod Contents
pub mod Creation
pub mod InMemory
pub mod Identity
pub mod Roots
mod Examples
use mathlib.Core.Path.{ap₂}
use matt_sql.Prelude.{
  ℕ, ◌≡◌, refl, Bool, true, false, ◌&&◌, List, [], ◌∷◌, ◌==◌, arith, inl, inr, Bool-cases,
}
use matt_sql.Common.Maps.{KeyEq}
use matt_sql.Common.Types.{TableSchema}
use matt_sql.Lexer.{text_eq}

pub record IndexSchema : Type 0 where
  pub name : List ℕ
  pub key_columns : List ℕ
  pub unique : Bool

pub record IndexInfo : Type 0 where
  pub id : ℕ
  pub name : List ℕ
  pub table_id : ℕ
  pub schema : IndexSchema
  pub root_page_id : ℕ

pub record TableInfo : Type 0 where
  pub id : ℕ
  pub name : List ℕ
  pub schema : TableSchema
  pub heap_root_page_id : ℕ
  pub indexes : List IndexInfo

pub record CreateTableRequest : Type 0 where
  pub name : List ℕ
  pub schema : TableSchema

pub record CreateIndexRequest : Type 0 where
  pub table_name : List ℕ
  pub schema : IndexSchema

pub text_eq_sound : (a b : List ℕ) → text_eq a b ≡ true → a ≡ b
text_eq_sound [] [] h = refl
text_eq_sound [] (y ∷ b) h = absurd (cc h)
text_eq_sound (x ∷ a) [] h = absurd (cc h)
text_eq_sound (x ∷ a) (y ∷ b) h = elim (Bool-cases (x == y)) [
  | inl same ↦
      let head : x ≡ y = ground arith in ap₂ (λ c t. c ∷ t) head (text_eq_sound a b (rw same at h))
  | inr other ↦ absurd (cc (rw other at h))
]

pub text_eq_complete : (a : List ℕ) → text_eq a a ≡ true
text_eq_complete [] = refl
text_eq_complete (x ∷ a) = ground (arith, text_eq_complete a)

abbrev pub key_eq : KeyEq (List ℕ)
key_eq = record { test = text_eq; sound = text_eq_sound; complete = text_eq_complete }
