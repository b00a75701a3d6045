-- ===== src/Binder/Typing/Soundness.antt =====
-- What src/binder/default_binder.cpp makes of an expression is typed.
use matt_sql.Prelude.{
  ℕ, suc, ◌+◌, ◌≡◌, refl, sym, ap, ◌∙◌, Bool, true, false, ◌&&◌, ◌||◌, Option, none, some, List, [],
  ◌∷◌, get_elem?, arith, if◌then◌else◌, Bool-cases, inl, inr,
}
use matt_sql.Common.Status.{Result, ok, bind-eq-ok, guard-eq-ok}
use matt_sql.Common.Types.{
  SqlType, integer_type, text_type, boolean_type, null_type, Value, ColumnSchema, TableSchema,
}
use matt_sql.Common.Values.{type_eq, value_type_of}
use matt_sql.Lexer.{fold_identifier_key, text_eq}
use matt_sql.Catalog.{TableInfo}
use matt_sql.Parser.Ast.{
  ExpressionPtr, null_expression, integer_literal, string_literal, boolean_literal, null_literal,
  column_ref, unary_expression, binary_expression, star_expression,
}
use matt_sql.Binder.Expression.{
  BoundExpressionPtr, literal, unary, binary, UnaryOperator, plus, minus, logical_not,
  BinaryOperator, add, subtract, multiply, divide, equal, not_equal, less, less_equal, greater,
  greater_equal, logical_and, logical_or,
}
use matt_sql.Binder.Columns.{find_column, resolve_column, split_column_name, make_bound_column}
use matt_sql.Binder.Binding.{
  type_of, is_missing, is_boolean_integer_literal, equality_comparable, ordering_comparable,
  require, unary_result_type, binary_result_type, bind_column, bind_unary, bind_binary,
  bind_expression, make_typed_literal,
}
use matt_sql.Binder.Typing.{
  UnaryRule, plus_integer, minus_integer, not_boolean, Comparable, null_left, null_right,
  boolean_integer, integer_boolean, Ordered, BinaryRule, add_integers, subtract_integers,
  multiply_integers, divide_integers, equal_values, not_equal_values, less_values,
  less_equal_values, greater_values, greater_equal_values, and_booleans, or_booleans, IsTyped,
}

-- The ids of the columns count from `start`: an id is the column's place.
abbrev pub HasIdsFrom : ℕ → TableSchema → Type 0
HasIdsFrom start [] = Unit
HasIdsFrom start (c ∷ cs) = (c.id ≡ start) × HasIdsFrom (suc start) cs

-- The columns that an expression may name.
abbrev pub columns_of : Option TableInfo → TableSchema
columns_of none = []
columns_of (some table) = table.schema

pub type_eq_sound : (a b : SqlType) → type_eq a b ≡ true → a ≡ b
unfolding type_eq
type_eq_sound integer_type b h = ground arith
type_eq_sound a b h = ground arith

require_lem : (test : Bool) {s t : SqlType} → require test s ≡ ok t → (test ≡ true) × (s ≡ t)
require_lem true h = (refl, cc)
require_lem false h = absurd (cc h)

both : (a b : Bool) → (a && b) ≡ true → (a ≡ true) × (b ≡ true)
both true b h = (refl, h)
both false b h = absurd (cc h)

unary_rule :
    (op : UnaryOperator) (s : SqlType) {t : SqlType}
    → unary_result_type op s ≡ ok t
    → UnaryRule op s t
unfolding unary_result_type
unary_rule plus s h =
    let (same, result) = require_lem (type_eq s integer_type) h in
    rw (type_eq_sound s integer_type same, ← result) plus_integer
unary_rule minus s h =
    let (same, result) = require_lem (type_eq s integer_type) h in
    rw (type_eq_sound s integer_type same, ← result) minus_integer
unary_rule logical_not s h =
    let (same, result) = require_lem (type_eq s boolean_type) h in
    rw (type_eq_sound s boolean_type same, ← result) not_boolean

-- Operands that are both of one type.
operands_lem :
    (a b s r : SqlType) {t : SqlType}
    → require (type_eq a s && type_eq b s) r ≡ ok t
    → (a ≡ s) × (b ≡ s) × (r ≡ t)
operands_lem a b s r h =
    let (tests, result) = require_lem (type_eq a s && type_eq b s) h in
    let (left, right) = both (type_eq a s) (type_eq b s) tests in
    (type_eq_sound a s left, type_eq_sound b s right, result)

boolean_integer_literal_type :
    (e : BoundExpressionPtr) → is_boolean_integer_literal e ≡ true → type_of e ≡ integer_type
unfolding is_boolean_integer_literal type_of
boolean_integer_literal_type (literal t v) h = type_eq_sound t integer_type (both _ _ h).0
boolean_integer_literal_type e h = absurd (cc h)

or_false : (r : Bool) → (if r then true else false) ≡ true → r ≡ true
or_false true h = refl
or_false false h = h

comparable_lem :
    (s t : SqlType) (l r : Bool)
    → (l ≡ true → s ≡ integer_type)
    → (r ≡ true → t ≡ integer_type)
    → (if type_eq s null_type || type_eq t null_type
        then true
        else if type_eq s t
        then true
        else if type_eq s boolean_type && r
        then true
        else type_eq t boolean_type && l)
      ≡ true
    → Comparable s t
unfolding type_eq
comparable_lem null_type t l r hl hr h = null_left
comparable_lem integer_type null_type l r hl hr h = null_right
comparable_lem text_type null_type l r hl hr h = null_right
comparable_lem boolean_type null_type l r hl hr h = null_right
comparable_lem integer_type integer_type l r hl hr h = Comparable.integers
comparable_lem text_type text_type l r hl hr h = Comparable.texts
comparable_lem boolean_type boolean_type l r hl hr h = Comparable.booleans
comparable_lem integer_type boolean_type l r hl hr h = integer_boolean
comparable_lem boolean_type integer_type l r hl hr h = boolean_integer
comparable_lem integer_type text_type l r hl hr h = absurd (cc h)
comparable_lem text_type integer_type l r hl hr h = absurd (cc h)
comparable_lem text_type boolean_type l r hl hr h = absurd (cc (hl h))
comparable_lem boolean_type text_type l r hl hr h = absurd (cc (hr (or_false r h)))

equality_rule :
    (e f : BoundExpressionPtr) → equality_comparable e f ≡ true → Comparable (type_of e) (type_of f)
unfolding equality_comparable
equality_rule e f h =
    comparable_lem (type_of e) (type_of f) _ _ (boolean_integer_literal_type e)
      (boolean_integer_literal_type f) h

ordering_rule : (s t : SqlType) → ordering_comparable s t ≡ true → Ordered s t
unfolding ordering_comparable type_eq
ordering_rule integer_type integer_type h = Ordered.integers
ordering_rule text_type text_type h = Ordered.texts
ordering_rule boolean_type boolean_type h = absurd (cc h)
ordering_rule null_type null_type h = absurd (cc h)
ordering_rule s t h = absurd (cc h)

-- The rule of an operator that wants both operands of one type.
same_rule :
    {op : BinaryOperator} (e f : BoundExpressionPtr) (s r : SqlType) {t : SqlType}
    → BinaryRule op s s r
    → require (type_eq (type_of e) s && type_eq (type_of f) s) r ≡ ok t
    → BinaryRule op (type_of e) (type_of f) t
same_rule e f s r rule h =
    let (left, right, result) = operands_lem (type_of e) (type_of f) s r h in
    rw (left, right, ← result) rule

equals_rule :
    {op : BinaryOperator} (e f : BoundExpressionPtr) {t : SqlType}
    → (Comparable (type_of e) (type_of f) → BinaryRule op (type_of e) (type_of f) boolean_type)
    → require (equality_comparable e f) boolean_type ≡ ok t
    → BinaryRule op (type_of e) (type_of f) t
equals_rule e f rule h =
    let (test, result) = require_lem (equality_comparable e f) h in
    rw (← result) (rule (equality_rule e f test))

order_rule :
    {op : BinaryOperator} (s u : SqlType) {t : SqlType}
    → (Ordered s u → BinaryRule op s u boolean_type)
    → require (ordering_comparable s u) boolean_type ≡ ok t
    → BinaryRule op s u t
order_rule s u rule h =
    let (test, result) = require_lem (ordering_comparable s u) h in
    rw (← result) (rule (ordering_rule s u test))

binary_rule :
    (op : BinaryOperator) (e f : BoundExpressionPtr) {t : SqlType}
    → binary_result_type op e f ≡ ok t
    → BinaryRule op (type_of e) (type_of f) t
unfolding binary_result_type
binary_rule add e f h = same_rule e f integer_type integer_type add_integers h
binary_rule subtract e f h = same_rule e f integer_type integer_type subtract_integers h
binary_rule multiply e f h = same_rule e f integer_type integer_type multiply_integers h
binary_rule divide e f h = same_rule e f integer_type integer_type divide_integers h
binary_rule logical_and e f h = same_rule e f boolean_type boolean_type and_booleans h
binary_rule logical_or e f h = same_rule e f boolean_type boolean_type or_booleans h
binary_rule equal e f h = equals_rule e f equal_values h
binary_rule not_equal e f h = equals_rule e f not_equal_values h
binary_rule less e f h = order_rule (type_of e) (type_of f) less_values h
binary_rule less_equal e f h = order_rule (type_of e) (type_of f) less_equal_values h
binary_rule greater e f h = order_rule (type_of e) (type_of f) greater_values h
binary_rule greater_equal e f h = order_rule (type_of e) (type_of f) greater_equal_values h

-- The column found stands at the place that its id names.
find_column-HasIdsFrom :
    (key : List ℕ) (cs : TableSchema) (start : ℕ) {c : ColumnSchema}
    → HasIdsFrom start cs
    → find_column key cs ≡ ok c
    → (i : ℕ) × (c.id ≡ start + i) × (get_elem? cs i ≡ some c)
unfolding find_column
find_column-HasIdsFrom key [] start w h = absurd (cc h)
find_column-HasIdsFrom key (d ∷ cs) start {c} w h =
    elim (Bool-cases (text_eq (fold_identifier_key d.name) key)) [
      | inl here ↦
          let same : d ≡ c = cc (rw here at h) in
          (0, ap (λ (x : ColumnSchema). x.id) (sym same) ∙ w.0 ∙ omega arith, ap some same)
      | inr there ↦
          let (i, place, found) = find_column-HasIdsFrom key cs (suc start) w.1 (rw there at h) in
          (suc i, place ∙ omega arith, found)
    ]

resolve_column-find :
    (table : TableInfo) (name : List ℕ) {c : ColumnSchema}
    → resolve_column table name ≡ ok c
    → (key : List ℕ) × (find_column key table.schema ≡ ok c)
unfolding resolve_column
resolve_column-find table name h =
    let (parts, split, rest) = bind-eq-ok (split_column_name name) _ h in
    let (passed, found) = guard-eq-ok _ _ rest in (fold_identifier_key parts.column_name, found)

bind_column-IsTyped :
    (name : List ℕ) (table : Option TableInfo) {b : BoundExpressionPtr}
    → HasIdsFrom 0 (columns_of table)
    → bind_column name table ≡ ok b
    → IsTyped (columns_of table) b
unfolding bind_column make_bound_column
bind_column-IsTyped name none w h = absurd (cc h)
bind_column-IsTyped name (some table) {b} w h =
    let (c, resolved, made) = bind-eq-ok (resolve_column table name) _ h in
    let (key, found) = resolve_column-find table name resolved in
    let (i, place, there) = find_column-HasIdsFrom key table.schema 0 w found in
    let same : make_bound_column table c ≡ b = cc made in
    rw (← same) (c, ap (get_elem? table.schema) (place ∙ omega arith) ∙ there, refl)

bind_unary-eq-ok :
    (op : UnaryOperator) (missing : Bool) (r : Result BoundExpressionPtr) {b : BoundExpressionPtr}
    → bind_unary op missing r ≡ ok b
    → (e : BoundExpressionPtr) × (r ≡ ok e)
      × (t : SqlType) × (unary_result_type op (type_of e) ≡ ok t)
      × (unary t op e ≡ b)
unfolding bind_unary
bind_unary-eq-ok op true r h = absurd (cc h)
bind_unary-eq-ok op false r h =
    let (e, operand, rest) = bind-eq-ok r _ h in
    let (t, typed, made) = bind-eq-ok (unary_result_type op (type_of e)) _ rest in
    (e, operand, t, typed, cc made)

bind_binary-eq-ok :
    (op : BinaryOperator) (missing : Bool) (r s : Result BoundExpressionPtr)
    {b : BoundExpressionPtr}
    → bind_binary op missing r s ≡ ok b
    → (e : BoundExpressionPtr) × (f : BoundExpressionPtr) × (r ≡ ok e)
      × (s ≡ ok f)
      × (t : SqlType) × (binary_result_type op e f ≡ ok t)
      × (binary t e op f ≡ b)
unfolding bind_binary
bind_binary-eq-ok op true r s h = absurd (cc h)
bind_binary-eq-ok op false r s h =
    let (e, left, rest) = bind-eq-ok r _ h in
    let (f, right, rest') = bind-eq-ok s _ rest in
    let (t, typed, made) = bind-eq-ok (binary_result_type op e f) _ rest' in
    (e, f, left, right, t, typed, cc made)

literal_IsTyped :
    (v : Value) (schema : TableSchema) {b : BoundExpressionPtr}
    → ok (literal (value_type_of v) v) ≡ ok b
    → IsTyped schema b
literal_IsTyped v schema {b} h =
    let same : literal (value_type_of v) v ≡ b = cc h in rw (← same) refl

-- What is bound is typed by the columns of the table, if their ids are their places.
pub bind_expression-IsTyped :
    (e : ExpressionPtr) (table : Option TableInfo) {b : BoundExpressionPtr}
    → HasIdsFrom 0 (columns_of table)
    → bind_expression e table ≡ ok b
    → IsTyped (columns_of table) b
unfolding bind_expression make_typed_literal value_type_of
bind_expression-IsTyped null_expression table w h = absurd (cc h)
bind_expression-IsTyped (integer_literal n) table w h = literal_IsTyped (Value.integer n) _ h
bind_expression-IsTyped (string_literal t) table w h = literal_IsTyped (Value.text t) _ h
bind_expression-IsTyped (boolean_literal b) table w h = literal_IsTyped (Value.boolean b) _ h
bind_expression-IsTyped null_literal table w h = literal_IsTyped Value.null _ h
bind_expression-IsTyped (column_ref name) table w h = bind_column-IsTyped name table w h
bind_expression-IsTyped (unary_expression op e) table {b} w h =
    let (f, operand, t, typed, made) =
      bind_unary-eq-ok op (is_missing e) (bind_expression e table) h in
    rw (← made) (unary_rule op (type_of f) typed, bind_expression-IsTyped e table w operand)
bind_expression-IsTyped (binary_expression e op f) table {b} w h =
    let (e', f', left, right, t, typed, made) =
      bind_binary-eq-ok op (is_missing e || is_missing f) (bind_expression e table)
        (bind_expression f table) h in
    rw (← made) (
      binary_rule op e' f' typed,
      bind_expression-IsTyped e table w left,
      bind_expression-IsTyped f table w right,
    )
bind_expression-IsTyped star_expression table w h = absurd (cc h)
