-- ===== src/Sql/Statements/Outcomes.antt =====
-- What every result of SQLParser.cpp's statements has in common.
use Prim.Native.String.{String}
use altas_dbpro.Prelude.{
  ◌≡◌, ◌≢◌, refl, inl, inr, true, false, some, List, [], ◌∷◌, arith, if◌then◌else◌, Bool-cases,
}
use altas_dbpro.Prelude.Maps.{find, find-put}
use altas_dbpro.Sql.{
  Text, string_eq, is_word, is_keyword, StatementType, empty, ParseResult, fail, with_attribute,
  select, insert, update, delete, create_table,
}
use altas_dbpro.Sql.Statements.{
  no_token, parse_table_name, is_blank_name, where_value, where_operator, where_column,
  parse_where_clause, select_table, select_from, parse_select, insert_values, insert_columns,
  insert_table, parse_insert, update_value, update_equals, update_column, update_set, parse_update,
  delete_table, parse_delete, create_columns, create_name, parse_create_table, parse_column_list,
  parse_value_list, definitions_loop, begun, skip_keyword,
}

-- A table was named, and not by the empty text.
abbrev pub HasTable : ParseResult → Type 0
HasTable r = (t : Text) × (find "table" r.attributes ≡ some t) × (is_blank_name t ≡ false)

-- The result of a statement of the type `type`: a failure has a message, and a success has none.
pub data Outcome (type : StatementType) (Extra : ParseResult → Type 0) (r : ParseResult)
    : Type 0 where
  good :
      r.type ≡ type
      → r.tokens ≡ []
      → r.success ≡ true
      → r.error_message ≡ empty
      → Extra r
      → Outcome type Extra r
  bad :
      r.type ≡ type
      → r.tokens ≡ []
      → r.success ≡ false
      → r.error_message ≢ empty
      → Outcome type Extra r

-- A result on the way: nothing has failed yet.
record Open (type : StatementType) (r : ParseResult) : Type 0 where
  type_is : r.type ≡ type
  no_tokens : r.tokens ≡ []
  fine : r.success ≡ true
  silent : r.error_message ≡ empty

module _ {type : StatementType} where
  begun-Open : Open type (begun type)
  begun-Open = record { type_is = refl; no_tokens = refl; fine = refl; silent = refl }

  failed :
      {Extra : ParseResult → Type 0} {r : ParseResult} (message : String)
      → Open type r
      → Outcome type Extra (fail message r)
  failed message o = bad o.type_is o.no_tokens refl (λ e. ground arith)

  attribute-Open :
      {r : ParseResult} (key : String) (v : Text) → Open type r → Open type (with_attribute key v r)
  attribute-Open key v o = record {
    type_is = o.type_is;
    no_tokens = o.no_tokens;
    fine = o.fine;
    silent = o.silent;
  }

  finish : {r : ParseResult} → Open type r → HasTable r → Outcome type HasTable r
  finish o t = good o.type_is o.no_tokens o.fine o.silent t

-- A further attribute under another key leaves the table.
kept_table :
    (r : ParseResult) (key : String) (v : Text)
    → string_eq.eqb key "table" ≡ false
    → HasTable r
    → HasTable (with_attribute key v r)
kept_table r key v other (t, e, b) = (t, rw (find-put key "table" v r.attributes, other) e, b)

named_table :
    (r : ParseResult) (t : Text) → is_blank_name t ≡ false → HasTable (with_attribute "table" t r)
named_table r t b = (t, find-put "table" "table" t r.attributes, b)

module _ {type : StatementType} where
  where_value-Outcome :
      (ts : List Text) (r : ParseResult)
      → Open type r
      → HasTable r
      → Outcome type HasTable (where_value ts r)
  unfolding where_value
  where_value-Outcome [] r o h = failed _ o
  where_value-Outcome (v ∷ ts) r o h =
      finish (attribute-Open "where_value" v o) (kept_table r "where_value" v refl h)

  where_operator-Outcome :
      (ts : List Text) (r : ParseResult)
      → Open type r
      → HasTable r
      → Outcome type HasTable (where_operator ts r)
  unfolding where_operator
  where_operator-Outcome [] r o h = failed _ o
  where_operator-Outcome (v ∷ ts) r o h =
      where_value-Outcome ts _ (attribute-Open "where_operator" v o)
        (kept_table r "where_operator" v refl h)

  where_column-Outcome :
      (ts : List Text) (r : ParseResult)
      → Open type r
      → HasTable r
      → Outcome type HasTable (where_column ts r)
  unfolding where_column
  where_column-Outcome [] r o h = failed _ o
  where_column-Outcome (v ∷ ts) r o h =
      where_operator-Outcome ts _ (attribute-Open "where_column" v o)
        (kept_table r "where_column" v refl h)

  parse_where_clause-Outcome :
      (ts : List Text) (r : ParseResult)
      → Open type r
      → HasTable r
      → Outcome type HasTable (parse_where_clause ts r)
  unfolding parse_where_clause
  parse_where_clause-Outcome [] r o h = finish o h
  parse_where_clause-Outcome (t ∷ ts) r o h = elim (Bool-cases (is_keyword "WHERE" t)) [
    | inl e ↦ rw e (where_column-Outcome ts r o h)
    | inr e ↦ rw e (finish o h)
  ]

  -- Each statement names its table by the same two steps.
  table_step :
      (rest : Text → List Text → ParseResult) (message : String) (ts : List Text) (r : ParseResult)
      → Open type r
      → ((t : Text) (ts' : List Text)
          → is_blank_name t ≡ false
          → Outcome type HasTable (rest t ts'))
      → Outcome type HasTable (
          if is_blank_name (parse_table_name ts).0
          then fail message r
          else rest (parse_table_name ts).0 (parse_table_name ts).1)
  table_step rest message ts r o k = elim (Bool-cases (is_blank_name (parse_table_name ts).0)) [
    | inl e ↦ rw e (failed message o)
    | inr e ↦ rw e (k (parse_table_name ts).0 (parse_table_name ts).1 e)
  ]

select_table-Outcome :
    (ts : List Text) (r : ParseResult) → Open select r → Outcome select HasTable (select_table ts r)
unfolding select_table
select_table-Outcome ts r o =
    table_step (λ t ts'. parse_where_clause ts' (with_attribute "table" t r)) _ ts r o
      (λ t ts' b. parse_where_clause-Outcome ts' _ (attribute-Open "table" t o) (named_table r t b))

pub parse_select-Outcome : (ts : List Text) → Outcome select HasTable (parse_select ts)
unfolding parse_select select_from
parse_select-Outcome ts = elim (Bool-cases (no_token (parse_column_list ts).0)) [
  | inl e ↦ rw e (failed _ begun-Open)
  | inr e ↦ rw e (from (parse_column_list ts).1 _ (attribute-Open "columns" _ begun-Open))
]
  where
    from :
        (us : List Text) (r : ParseResult)
        → Open select r
        → Outcome select HasTable (select_from us r)
    from [] r o = failed _ o
    from (u ∷ us) r o = elim (Bool-cases (is_keyword "FROM" u)) [
      | inl e ↦ rw e (select_table-Outcome us r o)
      | inr e ↦ rw e (failed _ o)
    ]

insert_values-Outcome :
    (ts : List Text) (r : ParseResult)
    → Open insert r
    → HasTable r
    → Outcome insert HasTable (insert_values ts r)
unfolding insert_values
insert_values-Outcome [] r o h = failed _ o
insert_values-Outcome (t ∷ ts) r o h = elim (Bool-cases (no_token (parse_value_list (t ∷ ts)).0)) [
  | inl e ↦ rw e (failed _ o)
  | inr e ↦ rw e (finish (attribute-Open "values" _ o) (kept_table r "values" _ refl h))
]

insert_columns-Outcome :
    (ts : List Text) (r : ParseResult)
    → Open insert r
    → HasTable r
    → Outcome insert HasTable (insert_columns ts r)
unfolding insert_columns
insert_columns-Outcome [] r o h = insert_values-Outcome [] r o h
insert_columns-Outcome (t ∷ ts) r o h = elim (Bool-cases (is_word "(" t)) [
  | inl e ↦ rw e (
      insert_values-Outcome (parse_column_list (t ∷ ts)).1 _ (attribute-Open "columns" _ o)
        (kept_table r "columns" _ refl h))
  | inr e ↦ rw e (insert_values-Outcome (t ∷ ts) r o h)
]

pub parse_insert-Outcome : (ts : List Text) → Outcome insert HasTable (parse_insert ts)
unfolding parse_insert insert_table
parse_insert-Outcome [] = failed _ begun-Open
parse_insert-Outcome (t ∷ ts) = elim (Bool-cases (is_keyword "INTO" t)) [
  | inl e ↦ rw e (
      table_step (λ u us. insert_columns us (with_attribute "table" u (begun insert))) _ ts
        (begun insert) begun-Open
        (λ u us b.
          insert_columns-Outcome us _ (attribute-Open "table" u begun-Open)
            (named_table (begun insert) u b)))
  | inr e ↦ rw e (failed _ begun-Open)
]

update_value-Outcome :
    (ts : List Text) (r : ParseResult)
    → Open update r
    → HasTable r
    → Outcome update HasTable (update_value ts r)
unfolding update_value
update_value-Outcome [] r o h = failed _ o
update_value-Outcome (v ∷ ts) r o h =
    parse_where_clause-Outcome ts _ (attribute-Open "set_value" v o)
      (kept_table r "set_value" v refl h)

update_equals-Outcome :
    (ts : List Text) (r : ParseResult)
    → Open update r
    → HasTable r
    → Outcome update HasTable (update_equals ts r)
unfolding update_equals
update_equals-Outcome [] r o h = failed _ o
update_equals-Outcome (t ∷ ts) r o h = elim (Bool-cases (is_word "=" t)) [
  | inl e ↦ rw e (update_value-Outcome ts r o h)
  | inr e ↦ rw e (failed _ o)
]

update_column-Outcome :
    (ts : List Text) (r : ParseResult)
    → Open update r
    → HasTable r
    → Outcome update HasTable (update_column ts r)
unfolding update_column
update_column-Outcome [] r o h = failed _ o
update_column-Outcome (v ∷ ts) r o h =
    update_equals-Outcome ts _ (attribute-Open "set_column" v o)
      (kept_table r "set_column" v refl h)

update_set-Outcome :
    (ts : List Text) (r : ParseResult)
    → Open update r
    → HasTable r
    → Outcome update HasTable (update_set ts r)
unfolding update_set
update_set-Outcome [] r o h = failed _ o
update_set-Outcome (t ∷ ts) r o h = elim (Bool-cases (is_keyword "SET" t)) [
  | inl e ↦ rw e (update_column-Outcome ts r o h)
  | inr e ↦ rw e (failed _ o)
]

pub parse_update-Outcome : (ts : List Text) → Outcome update HasTable (parse_update ts)
unfolding parse_update
parse_update-Outcome ts =
    table_step (λ u us. update_set us (with_attribute "table" u (begun update))) _ ts (begun update)
      begun-Open
      (λ u us b.
        update_set-Outcome us _ (attribute-Open "table" u begun-Open)
          (named_table (begun update) u b))

delete_table-Outcome : (ts : List Text) → Outcome delete HasTable (delete_table ts)
unfolding delete_table
delete_table-Outcome ts =
    table_step (λ u us. parse_where_clause us (with_attribute "table" u (begun delete))) _ ts
      (begun delete) begun-Open
      (λ u us b.
        parse_where_clause-Outcome us _ (attribute-Open "table" u begun-Open)
          (named_table (begun delete) u b))

pub parse_delete-Outcome : (ts : List Text) → Outcome delete HasTable (parse_delete ts)
unfolding parse_delete
parse_delete-Outcome [] = failed _ begun-Open
parse_delete-Outcome (t ∷ ts) = delete_table-Outcome (skip_keyword "FROM" (t ∷ ts))

create_columns-Outcome :
    (ts : List Text) (r : ParseResult)
    → Open create_table r
    → HasTable r
    → Outcome create_table HasTable (create_columns ts r)
unfolding create_columns
create_columns-Outcome [] r o h = failed _ o
create_columns-Outcome (t ∷ ts) r o h = elim (Bool-cases (is_word "(" t)) [
  | inr e ↦ rw e (failed _ o)
  | inl e ↦ elim (Bool-cases (no_token (definitions_loop false ts))) [
    | inl n ↦ rw (e, n) (failed _ o)
    | inr n ↦ rw (e, n) (finish (attribute-Open "columns" _ o) (kept_table r "columns" _ refl h))
  ]
]

pub parse_create_table-Outcome :
    (ts : List Text) → Outcome create_table HasTable (parse_create_table ts)
unfolding parse_create_table create_name
parse_create_table-Outcome [] = failed _ begun-Open
parse_create_table-Outcome (t ∷ ts) = elim (Bool-cases (is_keyword "TABLE" t)) [
  | inl e ↦ rw e (
      table_step (λ u us. create_columns us (with_attribute "table" u (begun create_table))) _ ts
        (begun create_table) begun-Open
        (λ u us b.
          create_columns-Outcome us _ (attribute-Open "table" u begun-Open)
            (named_table (begun create_table) u b)))
  | inr e ↦ rw e (failed _ begun-Open)
]
