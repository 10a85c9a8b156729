-- ===== src/Sql.antt =====
-- MiniDB/src/parser/SQLParser.cpp and its header: the tokens of an SQL text and the five kinds of
-- statement. A text is the list of its bytes. The parsing functions take the tokens that are left
-- where the source takes all tokens and `pos`, and give back those that are left after them; `pos` at
-- the end of the tokens is the empty list.
pub mod Lexer
pub mod Statements
pub mod Query
pub mod Tests
use Prim.Native.Char.{code}
use Prim.Native.String.{String}
use text.Mathlib.Text.{◌==◌ as str_eq}
use text.Mathlib.TextEquality.{eq_iff}
use altas_dbpro.Prelude.{
  ℕ, ◌-◌, ◌≡◌, refl, ◌↔◌, Bool, true, false, ◌&&◌, List, [], ◌∷◌, ◌++◌, map, arith, if◌then◌else◌,
  Eq, ◌==◌, nat_eq, nat_eqb, nat_eqb_iff, leb,
}
use altas_dbpro.Prelude.Maps.{put}

abbrev pub Text : Type 0
Text = List ℕ

abbrev pub codes : String → Text
codes String.[] = []
codes (String.◌∷◌ c s) = code c ∷ codes s

unfoldable pub text_eqb : Text → Text → Bool
text_eqb [] [] = true
text_eqb [] (d ∷ ds) = false
text_eqb (c ∷ cs) [] = false
text_eqb (c ∷ cs) (d ∷ ds) = c == d && text_eqb cs ds

pub text_eqb_iff : (s t : Text) → (text_eqb s t ≡ true) ↔ (s ≡ t)
unfolding text_eqb
text_eqb_iff [] [] = ground arith
text_eqb_iff [] (d ∷ ds) = ground arith
text_eqb_iff (c ∷ cs) [] = ground arith
text_eqb_iff (c ∷ cs) (d ∷ ds) = ground (arith, text_eqb_iff cs ds, nat_eqb_iff c d)

instance abbrev pub text_eq : Eq Text
text_eq = record { eqb = text_eqb; eqb_iff = text_eqb_iff }

-- `std::toupper` in the C locale.
unfoldable pub upper : ℕ → ℕ
upper c = if leb b'a' c && leb c b'z' then c - 32 else c

unfoldable pub to_upper : Text → Text
unfolding upper
to_upper = map upper

-- `token == "..."` and `ToUpper(token) == "..."`.
unfoldable pub is_word : String → Text → Bool
unfolding text_eqb
is_word word token = text_eqb token (codes word)

unfoldable pub is_keyword : String → Text → Bool
unfolding is_word to_upper
is_keyword word token = is_word word (to_upper token)

pub data StatementType : Type 0 where
  select insert update delete create_table unknown : StatementType

-- `error_message`: the empty string, a literal, or the one that ends in the first token.
pub data Message : Type 0 where
  empty : Message
  says : String → Message
  unsupported_type : Text → Message

instance abbrev pub string_eq : Eq String
string_eq = record { eqb = str_eq; eqb_iff = eq_iff }

pub record ParseResult : Type 0 where
  pub type : StatementType
  pub attributes : List (String × Text)
  pub tokens : List Text
  pub success : Bool
  pub error_message : Message

-- `ParseResult()`.
abbrev pub new_result : ParseResult
new_result = record {
  type = unknown;
  attributes = [];
  tokens = [];
  success = false;
  error_message = empty;
}

abbrev pub fail : String → ParseResult → ParseResult
fail message r = record r { success = false; error_message = says message }

abbrev pub with_attribute : String → Text → ParseResult → ParseResult
with_attribute key value r = record r { attributes = put key value r.attributes }
