-- ===== src/Sql/Query/Results.antt =====
-- What `ParseQuery` (SQLParser.cpp) answers, on every text.
use altas_dbpro.Prelude.{
  ◌≡◌, ◌≢◌, refl, ◌⊎◌, inl, inr, true, false, List, [], ◌∷◌, arith, if◌then◌else◌, Bool-cases, sym,
  ◌∙◌,
}
use altas_dbpro.Sql.{Text, is_keyword, StatementType, unknown, empty, ParseResult, new_result, fail}
use altas_dbpro.Sql.Lexer.{tokenize}
use altas_dbpro.Sql.Statements.Outcomes.{
  Outcome, good, bad, HasTable, parse_select-Outcome, parse_insert-Outcome, parse_update-Outcome,
  parse_delete-Outcome, parse_create_table-Outcome,
}
use altas_dbpro.Sql.Statements.{parse_create_table}
use altas_dbpro.Sql.Query.{
  parse_statement, parse_tokens, parse_query, second_is_table, with_tokens, unsupported,
}

-- A success is a statement of a known type that names a table, without a message; a failure has one.
pub data Verdict (r : ParseResult) : Type 0 where
  accepted : r.success ≡ true → r.error_message ≡ empty → r.type ≢ unknown → HasTable r → Verdict r
  rejected : r.success ≡ false → r.error_message ≢ empty → Verdict r

-- The tokens of a result are kept, or filled in.
abbrev Kept : List Text → ParseResult → Type 0
Kept tokens r = (r.tokens ≡ []) ⊎ (r.tokens ≡ tokens)

abbrev Checked : List Text → ParseResult → Type 0
Checked tokens r = Kept tokens r × Verdict r

Outcome-Checked :
    {type : StatementType} {r : ParseResult} (tokens : List Text)
    → type ≢ unknown
    → Outcome type HasTable r
    → Checked tokens r
Outcome-Checked tokens n (good t k s e h) = (inl k, accepted s e (λ u. n (sym t ∙ u)) h)
Outcome-Checked tokens n (bad t k s e) = (inl k, rejected s e)

parse_statement-Checked :
    (t : Text) (rest : List Text)
    → Checked (t ∷ rest) (parse_statement t rest (record new_result { tokens = t ∷ rest }))
unfolding parse_statement
parse_statement-Checked t rest = elim (Bool-cases (is_keyword "SELECT" t)) [
  | inl a ↦ rw a (Outcome-Checked _ (λ u. ground arith) (parse_select-Outcome rest))
  | inr a ↦ elim (Bool-cases (is_keyword "INSERT" t)) [
    | inl b ↦ rw (a, b) (Outcome-Checked _ (λ u. ground arith) (parse_insert-Outcome rest))
    | inr b ↦ elim (Bool-cases (is_keyword "UPDATE" t)) [
      | inl c ↦ rw (a, b, c) (Outcome-Checked _ (λ u. ground arith) (parse_update-Outcome rest))
      | inr c ↦ elim (Bool-cases (is_keyword "DELETE" t)) [
        | inl d ↦
            rw (a, b, c, d) (Outcome-Checked _ (λ u. ground arith) (parse_delete-Outcome rest))
        | inr d ↦ rw (a, b, c, d) (create_or_none t rest)
      ]
    ]
  ]
]
  where
    create_or_none :
        (t : Text) (rest : List Text)
        → Checked (t ∷ rest) (
            if is_keyword "CREATE" t
            then (if second_is_table rest
                then parse_create_table rest
                else fail "Unsupported CREATE statement type"
                    (record new_result { tokens = t ∷ rest }))
            else unsupported t (record new_result { tokens = t ∷ rest }))
    create_or_none t rest = elim (Bool-cases (is_keyword "CREATE" t)) [
      | inr a ↦ rw a (inr refl, rejected refl (λ e. ground arith))
      | inl a ↦ elim (Bool-cases (second_is_table rest)) [
        | inl b ↦
            rw (a, b) (Outcome-Checked _ (λ u. ground arith) (parse_create_table-Outcome rest))
        | inr b ↦ rw (a, b) (inr refl, rejected refl (λ e. ground arith))
      ]
    ]

with_tokens-Checked :
    (t : Text) (rest : List Text) (r : ParseResult)
    → Checked (t ∷ rest) r
    → ((with_tokens (t ∷ rest) r).tokens ≡ t ∷ rest) × Verdict (with_tokens (t ∷ rest) r)
with_tokens-Checked t rest r (k, v) = by_kept k
  where
    refill : Verdict r → Verdict (record r { tokens = t ∷ rest })
    refill (accepted s e n h) = accepted s e n h
    refill (rejected s e) = rejected s e

    by_kept :
        Kept (t ∷ rest) r
        → ((with_tokens (t ∷ rest) r).tokens ≡ t ∷ rest) × Verdict (with_tokens (t ∷ rest) r)
    by_kept (inl p) = rw p (refl, refill v)
    by_kept (inr p) = rw p (refl, refill v)

parse_tokens-Verdict :
    (ts : List Text) → ((parse_tokens ts).tokens ≡ ts) × Verdict (parse_tokens ts)
unfolding parse_tokens
parse_tokens-Verdict [] = (refl, rejected refl (λ e. ground arith))
parse_tokens-Verdict (t ∷ ts) = with_tokens-Checked t ts _ (parse_statement-Checked t ts)

-- On every text `ParseQuery` gives back the tokens of `Tokenize`. It succeeds with a known statement
-- type, a table whose name is not empty and no error message, or it fails with an error message.
pub parse_query-Verdict :
    (sql : Text) → ((parse_query sql).tokens ≡ tokenize sql) × Verdict (parse_query sql)
unfolding parse_query
parse_query-Verdict sql = parse_tokens-Verdict (tokenize sql)
