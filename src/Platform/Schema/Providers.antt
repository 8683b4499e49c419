-- ===== src/Platform/Schema/Providers.antt =====
-- The tables of `SCHEMA` in syte/platform/store.py: operator_profiles, license_records.
use sarra.Common.{List, [], ◌∷◌}
use sarra.Value.{null, str}
use sarra.Platform.Schema.Column.{SqlColumn, col, text, nullable, required, primary}

abbrev pub operator_profiles_columns : List SqlColumn
operator_profiles_columns =
    col "uuid" text primary null
    ∷ col "team_uuid" text required null
    ∷ col "display_name" text nullable (str "")
    ∷ col "email" text nullable (str "")
    ∷ col "role" text nullable (str "operator")
    ∷ col "created_at" text required null
    ∷ col "updated_at" text required null
    ∷ []

abbrev pub license_records_columns : List SqlColumn
license_records_columns =
    col "uuid" text primary null
    ∷ col "team_uuid" text required null
    ∷ col "feature" text required null
    ∷ col "status" text nullable (str "available")
    ∷ col "source" text nullable (str "self-hosted")
    ∷ col "created_at" text required null
    ∷ col "updated_at" text required null
    ∷ []
