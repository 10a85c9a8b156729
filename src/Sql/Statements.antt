-- ===== src/Sql/Statements.antt =====
-- The parsing functions of SQLParser.cpp below `ParseQuery`. Each takes the tokens from `pos` on.
-- What they leave of the tokens is given back where a caller reads `pos` afterwards.
pub mod Outcomes
use Prim.Native.String.{String}
use altas_dbpro.Prelude.{Bool, true, false, not, ◌&&◌, ◌||◌, List, [], ◌∷◌, ◌++◌, if◌then◌else◌}
use altas_dbpro.Sql.{
  Text, codes, is_word, is_keyword, StatementType, select, insert, update, delete, create_table,
  ParseResult, new_result, fail, with_attribute,
}

abbrev pub no_token : List Text → Bool
no_token [] = true
no_token (t ∷ ts) = false

-- `ParseTableName`.
unfoldable pub parse_table_name : List Text → Text × List Text
parse_table_name [] = ([], [])
parse_table_name (t ∷ rest) = (t, rest)

-- The `+=` loops that join the columns or the values by commas.
unfoldable pub join_commas : List Text → Text
join_commas [] = []
join_commas (t ∷ []) = t
join_commas (t ∷ u ∷ ts) = t ++ b',' ∷ join_commas (u ∷ ts)

unfoldable pub ends_columns : Text → Bool
unfolding is_keyword
ends_columns t =
    is_keyword "FROM" t || is_keyword "WHERE" t || is_keyword "VALUES" t || is_keyword "SET" t

abbrev cons_column : Text → List Text × List Text → List Text × List Text
cons_column t (columns, rest) = (t ∷ columns, rest)

-- The `while` loop of `ParseColumnList`.
unfoldable pub columns_loop : List Text → List Text × List Text
unfolding ends_columns is_word
columns_loop [] = ([], [])
columns_loop (t ∷ []) =
    if is_word ")" t || is_word "," t
    then ([], [])
    else if ends_columns t
    then ([], t ∷ [])
    else (t ∷ [], [])
columns_loop (t ∷ u ∷ rest) = elim (is_word ")" t) [
  | true ↦ ([], u ∷ rest)
  | false ↦ elim (is_word "," t) [
    | true ↦ columns_loop (u ∷ rest)
    | false ↦ elim (ends_columns t) [
      | true ↦ ([], t ∷ u ∷ rest)
      | false ↦ elim (is_word "," u) [
        | true ↦ cons_column t (columns_loop rest)
        | false ↦ elim (is_word ")" u) [
          | true ↦ (t ∷ [], rest)
          | false ↦ cons_column t (columns_loop (u ∷ rest))
        ]
      ]
    ]
  ]
]

-- An optional token is passed over.
unfoldable pub skip_word : String → List Text → List Text
unfolding is_word
skip_word word [] = []
skip_word word (t ∷ rest) = if is_word word t then rest else t ∷ rest

unfoldable pub skip_keyword : String → List Text → List Text
unfolding is_keyword
skip_keyword word [] = []
skip_keyword word (t ∷ rest) = if is_keyword word t then rest else t ∷ rest

unfoldable pub parse_column_list : List Text → List Text × List Text
unfolding columns_loop skip_word is_word
parse_column_list [] = ([], [])
parse_column_list (t ∷ rest) =
    if is_word "*" t then (codes "*" ∷ [], rest) else columns_loop (skip_word "(" (t ∷ rest))

-- The `while` loop of `ParseValueList`.
unfoldable pub values_loop : List Text → List Text × List Text
unfolding is_word
values_loop [] = ([], [])
values_loop (t ∷ rest) = elim (is_word ")" t) [
  | true ↦ ([], rest)
  | false ↦ elim (is_word "," t) [
    | true ↦ values_loop rest
    | false ↦ cons_column t (values_loop rest)
  ]
]

unfoldable pub parse_value_list : List Text → List Text × List Text
unfolding values_loop skip_word skip_keyword
parse_value_list [] = ([], [])
parse_value_list (t ∷ rest) = values_loop (skip_word "(" (skip_keyword "VALUES" (t ∷ rest)))

-- `ParseWhereClause`; the callers do not read `pos` afterwards.
unfoldable pub where_value : List Text → ParseResult → ParseResult
where_value [] r = fail "WHERE clause value missing" r
where_value (value ∷ rest) r = with_attribute "where_value" value r

unfoldable pub where_operator : List Text → ParseResult → ParseResult
unfolding where_value
where_operator [] r = fail "WHERE clause operator missing" r
where_operator (op ∷ rest) r = where_value rest (with_attribute "where_operator" op r)

unfoldable pub where_column : List Text → ParseResult → ParseResult
unfolding where_operator
where_column [] r = fail "WHERE clause is incomplete" r
where_column (column ∷ rest) r = where_operator rest (with_attribute "where_column" column r)

unfoldable pub parse_where_clause : List Text → ParseResult → ParseResult
unfolding where_column is_keyword
parse_where_clause [] r = r
parse_where_clause (t ∷ rest) r = if is_keyword "WHERE" t then where_column rest r else r

-- `result.type = type; result.success = true;`
abbrev pub begun : StatementType → ParseResult
begun type = record new_result { type = type; success = true }

abbrev pub is_blank_name : Text → Bool
is_blank_name [] = true
is_blank_name (c ∷ cs) = false

-- `ParseSelect` from the token after SELECT on.
unfoldable pub select_table : List Text → ParseResult → ParseResult
unfolding parse_table_name parse_where_clause
select_table rest r =
    let (table, rest') = parse_table_name rest in
    if is_blank_name table
    then fail "SELECT statement missing table name" r
    else parse_where_clause rest' (with_attribute "table" table r)

unfoldable pub select_from : List Text → ParseResult → ParseResult
unfolding select_table is_keyword
select_from [] r = fail "SELECT statement missing FROM clause" r
select_from (t ∷ rest) r =
    if is_keyword "FROM" t
    then select_table rest r
    else fail "SELECT statement missing FROM keyword" r

unfoldable pub parse_select : List Text → ParseResult
unfolding parse_column_list join_commas select_from
parse_select rest =
    let (columns, rest') = parse_column_list rest in
    if no_token columns
    then fail "SELECT statement must have at least one column" (begun select)
    else select_from rest' (with_attribute "columns" (join_commas columns) (begun select))

-- `ParseInsert` from the token after INSERT on.
unfoldable pub insert_values : List Text → ParseResult → ParseResult
unfolding parse_value_list join_commas
insert_values [] r = fail "INSERT statement missing VALUES clause" r
insert_values (t ∷ rest) r =
    let (values, rest') = parse_value_list (t ∷ rest) in
    if no_token values
    then fail "INSERT statement missing values" r
    else with_attribute "values" (join_commas values) r

unfoldable pub insert_columns : List Text → ParseResult → ParseResult
insert_columns [] r = insert_values [] r
insert_columns (t ∷ rest) r =
    let (columns, rest') = parse_column_list (t ∷ rest) in
    if is_word "(" t
    then insert_values rest' (with_attribute "columns" (join_commas columns) r)
    else insert_values (t ∷ rest) r

unfoldable pub insert_table : List Text → ParseResult → ParseResult
unfolding parse_table_name insert_columns
insert_table rest r =
    let (table, rest') = parse_table_name rest in
    if is_blank_name table
    then fail "INSERT statement missing table name" r
    else insert_columns rest' (with_attribute "table" table r)

unfoldable pub parse_insert : List Text → ParseResult
unfolding insert_table is_keyword
parse_insert [] = fail "INSERT statement incomplete" (begun insert)
parse_insert (t ∷ rest) =
    if is_keyword "INTO" t
    then insert_table rest (begun insert)
    else fail "INSERT statement missing INTO keyword" (begun insert)

-- `ParseUpdate` from the token after UPDATE on.
unfoldable pub update_value : List Text → ParseResult → ParseResult
unfolding parse_where_clause
update_value [] r = fail "UPDATE SET clause missing value" r
update_value (value ∷ rest) r = parse_where_clause rest (with_attribute "set_value" value r)

unfoldable pub update_equals : List Text → ParseResult → ParseResult
unfolding update_value is_word
update_equals [] r = fail "UPDATE SET clause missing = operator" r
update_equals (t ∷ rest) r =
    if is_word "=" t then update_value rest r else fail "UPDATE SET clause missing = operator" r

unfoldable pub update_column : List Text → ParseResult → ParseResult
unfolding update_equals
update_column [] r = fail "UPDATE SET clause incomplete" r
update_column (column ∷ rest) r = update_equals rest (with_attribute "set_column" column r)

unfoldable pub update_set : List Text → ParseResult → ParseResult
unfolding update_column is_keyword
update_set [] r = fail "UPDATE statement missing SET clause" r
update_set (t ∷ rest) r =
    if is_keyword "SET" t
    then update_column rest r
    else fail "UPDATE statement missing SET keyword" r

unfoldable pub parse_update : List Text → ParseResult
unfolding parse_table_name update_set
parse_update rest =
    let (table, rest') = parse_table_name rest in
    if is_blank_name table
    then fail "UPDATE statement missing table name" (begun update)
    else update_set rest' (with_attribute "table" table (begun update))

-- `ParseDelete` from the token after DELETE on.
unfoldable pub delete_table : List Text → ParseResult
unfolding parse_table_name parse_where_clause
delete_table rest =
    let (table, rest') = parse_table_name rest in
    if is_blank_name table
    then fail "DELETE statement missing table name" (begun delete)
    else parse_where_clause rest' (with_attribute "table" table (begun delete))

unfoldable pub parse_delete : List Text → ParseResult
unfolding delete_table skip_keyword
parse_delete [] = fail "DELETE statement incomplete" (begun delete)
parse_delete (t ∷ rest) = delete_table (skip_keyword "FROM" (t ∷ rest))

-- The type words that the column definitions of CREATE TABLE pass over.
unfoldable pub is_type_word : Text → Bool
unfolding is_keyword
is_type_word t =
    is_keyword "INT" t
    || is_keyword "VARCHAR" t
    || is_keyword "TEXT" t
    || is_keyword "CHAR" t
    || is_keyword "INTEGER" t
    || is_keyword "PRIMARY" t
    || is_keyword "KEY" t
    || is_keyword "NOT" t
    || is_keyword "NULL" t

-- The loop over the column definitions. After a type word and "(" the tokens up to ")" are passed
-- over, which `in_type` says.
unfoldable pub definitions_loop : Bool → List Text → List Text
unfolding is_type_word is_word
definitions_loop in_type [] = []
definitions_loop true (t ∷ rest) = definitions_loop (not (is_word ")" t)) rest
definitions_loop false (t ∷ []) =
    if is_word ")" t || is_word "," t || is_type_word t then [] else t ∷ []
definitions_loop false (t ∷ u ∷ rest) = elim (is_word ")" t) [
  | true ↦ []
  | false ↦ elim (is_word "," t) [
    | true ↦ definitions_loop false (u ∷ rest)
    | false ↦ elim (is_type_word t) [
      | true ↦ elim (is_word "(" u) [
        | true ↦ definitions_loop true rest
        | false ↦ definitions_loop false (u ∷ rest)
      ]
      | false ↦ t ∷ definitions_loop false (u ∷ rest)
    ]
  ]
]

unfoldable pub create_columns : List Text → ParseResult → ParseResult
unfolding definitions_loop join_commas is_word
create_columns [] r = fail "CREATE TABLE statement missing column definitions" r
create_columns (t ∷ rest) r =
    let columns = definitions_loop false rest in
    if not (is_word "(" t)
    then fail "CREATE TABLE statement missing column definitions" r
    else if no_token columns
    then fail "CREATE TABLE statement has no columns" r
    else with_attribute "columns" (join_commas columns) r

unfoldable pub create_name : List Text → ParseResult → ParseResult
unfolding parse_table_name create_columns
create_name rest r =
    let (table, rest') = parse_table_name rest in
    if is_blank_name table
    then fail "CREATE TABLE statement missing table name" r
    else create_columns rest' (with_attribute "table" table r)

-- `ParseCreateTable` from the token after CREATE on.
unfoldable pub parse_create_table : List Text → ParseResult
unfolding create_name is_keyword
parse_create_table [] = fail "CREATE statement incomplete" (begun create_table)
parse_create_table (t ∷ rest) =
    if is_keyword "TABLE" t
    then create_name rest (begun create_table)
    else fail "CREATE statement missing TABLE keyword" (begun create_table)
