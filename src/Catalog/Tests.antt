-- ===== src/Catalog/Tests.antt =====
-- CatalogManager.cpp on a few calls.
use altas_dbpro.Prelude.{◌≡◌, false, List, [], ◌∷◌, if◌then◌else◌}
use altas_dbpro.Sql.{codes}
use altas_dbpro.Catalog.{CatalogManager, init, is_empty, table_exists, Call, creates, drops, run}
use altas_dbpro.Catalog.Names.{latest, exists-run}

abbrev history : List Call
history = creates (codes "users") ∷ creates (codes "logs") ∷ drops (codes "users") ∷ []

abbrev catalog : CatalogManager
catalog = run init history

exists-run_example :
    table_exists (codes "logs") (run init history)
    ≡ (if is_empty (codes "logs") then false else latest false (codes "logs") history)
exists-run_example = exists-run history (codes "logs")
