-- ===== src/Catalog/Names.antt =====
-- CatalogManager.cpp, its operations against each other and over histories of calls.
use altas_dbpro.Prelude.{
  ◌≡◌, refl, inl, inr, Bool, true, false, not, ◌&&◌, ◌||◌, List, [], ◌∷◌, arith, if◌then◌else◌,
  Bool-cases, ap,
}
use altas_dbpro.Prelude.Sets.{mem, mem-insert, mem-erase}
use altas_dbpro.Sql.{Text, text_eq, text_eqb, text_eqb_iff}
use altas_dbpro.Catalog.{
  CatalogManager, init, is_empty, create_table, drop_table, table_exists, Call, creates, drops,
  step, run,
}

-- `CreateTable` answers true if and only if the name is not empty and no table has it. Afterwards
-- the same tables exist as before, and one of that name unless it is empty.
pub create_table-exists :
    (c : CatalogManager) (name other : Text)
    → ((create_table name c).1 ≡ not (is_empty name) && not (table_exists name c))
      × (table_exists other (create_table name c).0
          ≡ table_exists other c || (not (is_empty name) && text_eqb name other))
unfolding create_table table_exists
create_table-exists c name other =
    (ground arith, ground (arith, mem-insert other name c.tables, text_eqb_iff name other))

-- `DropTable` answers true if and only if the name is not empty and a table has it. Afterwards the
-- same tables exist as before, less the one of that name unless it is empty.
pub drop_table-exists :
    (c : CatalogManager) (name other : Text)
    → ((drop_table name c).1 ≡ not (is_empty name) && table_exists name c)
      × (table_exists other (drop_table name c).0
          ≡ table_exists other c && not (not (is_empty name) && text_eqb name other))
unfolding drop_table table_exists
drop_table-exists c name other =
    (ground arith, ground (arith, mem-erase other name c.tables, text_eqb_iff name other))

-- Whether the last call of the history that names the table created it; `before` if none does.
unfoldable pub latest : Bool → Text → List Call → Bool
latest before name [] = before
latest before name (creates n ∷ cs) = latest (if text_eqb n name then true else before) name cs
latest before name (drops n ∷ cs) = latest (if text_eqb n name then false else before) name cs

-- One call, seen at a name that is not empty, and at one that is.
step-latest :
    (c : CatalogManager) (x : Call) (name : Text)
    → table_exists name (step c x)
      ≡ (if is_empty name then table_exists name c else latest (table_exists name c) name (x ∷ []))
unfolding step latest
step-latest c (creates x) name = elim (Bool-cases (text_eqb x name)) [
  | inl same ↦
      ground (arith, (create_table-exists c x name).1, ap is_empty ((text_eqb_iff x name).0 same))
  | inr other ↦ ground (arith, (create_table-exists c x name).1)
]
step-latest c (drops x) name = elim (Bool-cases (text_eqb x name)) [
  | inl same ↦
      ground (arith, (drop_table-exists c x name).1, ap is_empty ((text_eqb_iff x name).0 same))
  | inr other ↦ ground (arith, (drop_table-exists c x name).1)
]

latest-cons :
    (before : Bool) (name : Text) (x : Call) (cs : List Call)
    → latest before name (x ∷ cs) ≡ latest (latest before name (x ∷ [])) name cs
unfolding latest
latest-cons before name (creates n) cs = refl
latest-cons before name (drops n) cs = refl

run-latest :
    (c : CatalogManager) (cs : List Call) (name : Text)
    → table_exists name (run c cs)
      ≡ (if is_empty name then table_exists name c else latest (table_exists name c) name cs)
unfolding run
run-latest c [] name = unfold latest in (ground arith)
run-latest c (x ∷ cs) name = ground (
  arith,
  run-latest (step c x) cs name,
  step-latest c x name,
  latest-cons (table_exists name c) name x cs,
)

-- After every history of calls on an empty catalog, a table whose name is not empty exists if and
-- only if the last call that names it is a `CreateTable`; one with the empty name never exists.
pub exists-run :
    (cs : List Call) (name : Text)
    → table_exists name (run init cs) ≡ (if is_empty name then false else latest false name cs)
unfolding table_exists mem
exists-run cs name = run-latest init cs name
