-- ===== src/Catalog.antt =====
-- MiniDB/src/storage/CatalogManager.cpp and its header: the set of the tables' names. A name is the
-- list of its bytes.
pub mod Names
pub mod Tests
use altas_dbpro.Prelude.{ℕ, Bool, true, false, List, [], ◌∷◌, if◌then◌else◌}
use altas_dbpro.Prelude.Sets.{mem, insert, erase}
use altas_dbpro.Sql.{Text, text_eq}

pub record CatalogManager : Type 0 where
  pub tables : List Text

abbrev pub init : CatalogManager
init = record { tables = [] }

abbrev pub is_empty : Text → Bool
is_empty [] = true
is_empty (c ∷ cs) = false

unfoldable pub create_table : Text → CatalogManager → CatalogManager × Bool
create_table table_name c =
    if is_empty table_name
    then (c, false)
    else if mem table_name c.tables
    then (c, false)
    else (record c { tables = insert table_name c.tables }, true)

unfoldable pub drop_table : Text → CatalogManager → CatalogManager × Bool
drop_table table_name c =
    if is_empty table_name
    then (c, false)
    else if mem table_name c.tables
    then (record c { tables = erase table_name c.tables }, true)
    else (c, false)

unfoldable pub table_exists : Text → CatalogManager → Bool
unfolding mem
table_exists table_name c = mem table_name c.tables

-- The calls that change the catalog, and a history of them.
pub data Call : Type 0 where
  creates drops : Text → Call

unfoldable pub step : CatalogManager → Call → CatalogManager
unfolding create_table drop_table
step c (creates name) = (create_table name c).0
step c (drops name) = (drop_table name c).0

unfoldable pub run : CatalogManager → List Call → CatalogManager
unfolding step
run c [] = c
run c (x ∷ xs) = run (step c x) xs
