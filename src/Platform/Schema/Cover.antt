-- ===== src/Platform/Schema/Cover.antt =====
-- The schema, and the tables and columns that the cascades name.
use sarra.Common.{String, ◌≡◌, refl, Bool, true, List}
use sarra.Platform.Codec.{Row, Json}
use sarra.Platform.Schema.{catalog, is_uuid_table, migrate, migrate_one, created_tables, has_column}
use sarra.Common.Dict
use sarra.Platform.Cascade.{ResourceType, table_of, application, database, service}
use sarra.Platform.Cascade.Gone.{HasSchema}

resources_known : (kind : ResourceType) → is_uuid_table (table_of kind) ≡ true
unfolding is_uuid_table
resources_known application = refl
resources_known database = refl
resources_known service = refl

-- The tables that `SCHEMA` creates and `MIGRATIONS` extends have every table and column that the
-- removal of a resource names, whatever the JSON library and the constraints are.
pub catalog-HasSchema :
    (j : Json) (satisfied : String → List Row → Bool) → HasSchema (catalog j satisfied)
unfolding catalog is_uuid_table migrate migrate_one created_tables has_column Dict.get
catalog-HasSchema j satisfied = record {
  resources = resources_known;
  owned = ((refl, refl), ((refl, refl), ((refl, refl), ((refl, refl), tt))));
  deployments = (refl, refl);
  executions = (refl, refl);
  previews = (refl, refl);
  backups = (refl, refl);
  backup_executions = (refl, refl);
  containers = (refl, refl);
}
