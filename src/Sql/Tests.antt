-- ===== src/Sql/Tests.antt =====
-- SQLParser.cpp on single texts.
use altas_dbpro.Prelude.{◌≡◌, refl, List, [], ◌∷◌, none}
use altas_dbpro.Sql.{Text, codes}
use altas_dbpro.Sql.Lexer.{tokenize}
use altas_dbpro.Sql.Query.{parse_query}
use altas_dbpro.Sql.Query.Results.{Verdict, parse_query-Verdict}
use altas_dbpro.Sql.Lexer.Contents.{concat, strip, concat-tokenize}

abbrev sample : Text
sample = codes "select a, b from t where c<= 'x y'"

tokens-sample :
    (parse_query sample).tokens
    ≡ codes "select"
      ∷ codes "a"
      ∷ codes ","
      ∷ codes "b"
      ∷ codes "from"
      ∷ codes "t"
      ∷ codes "where"
      ∷ codes "c"
      ∷ codes "<="
      ∷ codes "'x y'"
      ∷ []
unfolding parse_query
tokens-sample = refl

attributes-sample :
    (parse_query sample).attributes
    ≡ ("columns", codes "a,b")
      ∷ ("table", codes "t")
      ∷ ("where_column", codes "c")
      ∷ ("where_operator", codes "<=")
      ∷ ("where_value", codes "'x y'")
      ∷ []
unfolding parse_query altas_dbpro.Prelude.Maps.put
attributes-sample = refl

parse_query-Verdict_example :
    ((parse_query sample).tokens ≡ tokenize sample) × Verdict (parse_query sample)
parse_query-Verdict_example = parse_query-Verdict sample

concat-tokenize_example : concat (tokenize sample) ≡ strip none sample
concat-tokenize_example = concat-tokenize sample
