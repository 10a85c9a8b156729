-- ===== src/Sql/Query.antt =====
-- `ParseQuery` (SQLParser.cpp).
pub mod Results
use altas_dbpro.Prelude.{Bool, true, false, List, [], ◌∷◌, if◌then◌else◌}
use altas_dbpro.Sql.{Text, is_word, is_keyword, ParseResult, new_result, fail, unsupported_type}
use altas_dbpro.Sql.Lexer.{tokenize}
use altas_dbpro.Sql.Statements.{
  parse_select, parse_insert, parse_update, parse_delete, parse_create_table, parse_column_list,
  join_commas, insert_values,
}

abbrev pub unsupported : Text → ParseResult → ParseResult
unsupported t r = record r { success = false; error_message = unsupported_type t }

-- `result.tokens.size() > 1 && ToUpper(result.tokens[1]) == "TABLE"`.
unfoldable pub second_is_table : List Text → Bool
unfolding is_keyword
second_is_table [] = false
second_is_table (t ∷ rest) = is_keyword "TABLE" t

-- By the first token `t`; a statement's own result replaces `result` with its tokens.
unfoldable pub parse_statement : Text → List Text → ParseResult → ParseResult
unfolding is_keyword second_is_table parse_select parse_insert parse_update parse_delete
    parse_create_table
parse_statement t rest result =
    if is_keyword "SELECT" t
    then parse_select rest
    else if is_keyword "INSERT" t
    then parse_insert rest
    else if is_keyword "UPDATE" t
    then parse_update rest
    else if is_keyword "DELETE" t
    then parse_delete rest
    else if is_keyword "CREATE" t
    then (if second_is_table rest
        then parse_create_table rest
        else fail "Unsupported CREATE statement type" result)
    else unsupported t result

abbrev pub no_tokens : List Text → Bool
no_tokens [] = true
no_tokens (t ∷ ts) = false

-- `if (result.tokens.empty()) result.tokens = Tokenize(sql);`
abbrev pub with_tokens : List Text → ParseResult → ParseResult
with_tokens tokens r = if no_tokens r.tokens then record r { tokens = tokens } else r

unfoldable pub parse_tokens : List Text → ParseResult
unfolding parse_statement
parse_tokens [] = fail "Empty SQL statement" (record new_result { tokens = [] })
parse_tokens (t ∷ rest) =
    with_tokens (t ∷ rest) (parse_statement t rest (record new_result { tokens = t ∷ rest }))

unfoldable pub parse_query : Text → ParseResult
unfolding parse_tokens tokenize parse_column_list join_commas insert_values is_word
parse_query sql = parse_tokens (tokenize sql)
