-- ===== src/Sql/Lexer.antt =====
-- `Tokenize` and `Trim` of SQLParser.cpp.
pub mod Contents
use altas_dbpro.Prelude.{
  ℕ, Bool, true, false, not, ◌&&◌, ◌||◌, Option, none, some, List, [], ◌∷◌, ◌++◌, if◌then◌else◌,
  ◌==◌, nat_eq, leb,
}
use altas_dbpro.Sql.{Text}

unfoldable pub is_quote : ℕ → Bool
is_quote c = c == 39 || c == 34

-- `std::isspace` in the C locale.
unfoldable pub is_space : ℕ → Bool
is_space c = c == 32 || leb 9 c && leb c 13

-- The separators that may begin an operator of two characters.
unfoldable pub begins_operator : ℕ → Bool
begins_operator c = c == b'<' || c == b'>' || c == b'!'

unfoldable pub is_separator : ℕ → Bool
unfolding begins_operator
is_separator c = c == b',' || c == b';' || c == b'(' || c == b')' || c == b'=' || begins_operator c

pub record Lexer : Type 0 where
  pub tokens : List Text
  pub current : Text
  pub in_quotes : Bool
  pub quote_char : ℕ

abbrev pub new_lexer : Lexer
new_lexer = record { tokens = []; current = []; in_quotes = false; quote_char = 0 }

abbrev pub is_empty : Text → Bool
is_empty [] = true
is_empty (c ∷ cs) = false

-- `if (!current.empty()) { tokens.push_back(current); current.clear(); }`
unfoldable pub flush : Lexer → Lexer
flush s =
    if is_empty s.current then s else record s { tokens = s.tokens ++ s.current ∷ []; current = [] }

unfoldable pub add : ℕ → Lexer → Lexer
add c s = record s { current = s.current ++ c ∷ [] }

unfoldable pub push : Text → Lexer → Lexer
push token s = record s { tokens = s.tokens ++ token ∷ [] }

unfoldable pub open_quote : ℕ → Lexer → Lexer
unfolding flush add
open_quote c s = add c (flush (record s { in_quotes = true; quote_char = c }))

unfoldable pub close_quote : ℕ → Lexer → Lexer
close_quote c s = record s {
  tokens = s.tokens ++ (s.current ++ c ∷ []) ∷ [];
  current = [];
  in_quotes = false;
}

abbrev pub next_is : ℕ → Option ℕ → Bool
next_is c none = false
next_is c (some d) = d == c

-- The loop's body at the character `c` before `next`; true if `++i` skips the next character.
unfoldable pub step : Lexer → ℕ → Option ℕ → Lexer × Bool
step s c next =
    if is_quote c
    then (if not s.in_quotes
        then (open_quote c s, false)
        else if c == s.quote_char
        then (if next_is s.quote_char next
            then (add c (add c s), true)
            else (close_quote c s, false))
        else (add c s, false))
    else if s.in_quotes
    then (add c s, false)
    else if is_space c
    then (flush s, false)
    else if is_separator c
    then (if begins_operator c && next_is b'=' next
        then (push (c ∷ b'=' ∷ []) (flush s), true)
        else (push (c ∷ []) (flush s), false))
    else (add c s, false)

abbrev pub advance : Bool → Lexer → ℕ → Option ℕ → Lexer × Bool
advance true s c next = (s, false)
advance false s c next = step s c next

abbrev pub first : Text → Option ℕ
first [] = none
first (c ∷ cs) = some c

-- `for (size_t i = 0; i < sql.length(); ++i)`; `skip` is set after the extra `++i`.
unfoldable pub loop : Bool → Lexer → Text → Lexer
loop skip s [] = s
loop skip s (c ∷ rest) = let (s', skip') = advance skip s c (first rest) in loop skip' s' rest

unfoldable pub remove_empty : List Text → List Text
remove_empty [] = []
remove_empty (t ∷ ts) = if is_empty t then remove_empty ts else t ∷ remove_empty ts

unfoldable pub tokenize : Text → List Text
unfolding loop flush remove_empty step is_quote is_space is_separator add push open_quote
    close_quote
tokenize sql = remove_empty (flush (loop false new_lexer sql)).tokens

-- `find_first_not_of(" \t\n\r")` and `find_last_not_of`, by their effect on the text.
abbrev is_blank : ℕ → Bool
is_blank c = c == 32 || c == 9 || c == 10 || c == 13

unfoldable pub trim_front : Text → Text
trim_front [] = []
trim_front (c ∷ cs) = if is_blank c then trim_front cs else c ∷ cs

unfoldable pub trim_back : Text → Text
trim_back [] = []
trim_back (c ∷ cs) = let rest = trim_back cs in if is_empty rest && is_blank c then [] else c ∷ rest

unfoldable pub trim : Text → Text
unfolding trim_front trim_back
trim s = trim_back (trim_front s)
