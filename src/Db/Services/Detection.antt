-- ===== src/Db/Services/Detection.antt =====
-- The credentials of a container's environment, `detect` of src/db/mod.rs over
-- `parse_env_json_array` of src/utils/env.rs.
use dip_rust.Base.{◌≡◌, ◌⊎◌, Option, none, some, unwrap_or, or_else}
use dip_rust.Db.Services.{DbConfig, Backend, both, with_mysql, with_postgres}
use dip_rust.Env.{Env}
use dip_rust.Text.{Text, codes}

-- The first of two settings, or the second if the first is not given.
abbrev pub Preferred : Option Text → Option Text → Text → Type 0
Preferred first second x = (first ≡ some x) ⊎ ((first ≡ none) × (second ≡ some x))

-- The credentials for each kind of database that some settings hold: for MySQL a name and the root
-- password; for PostgreSQL, only if one of those two is missing, a name and a password under either
-- of their names, and a user or else `postgres`.
abbrev pub MysqlSettings : (Text → Option Text) → DbConfig → Type 0
MysqlSettings value config =
    (value (codes "MYSQL_DATABASE") ≡ some config.db_name)
    × (value (codes "MYSQL_ROOT_PASSWORD") ≡ some config.password)
    × (config.user ≡ codes "root")

abbrev pub PostgresSettings : (Text → Option Text) → DbConfig → Type 0
PostgresSettings value config =
    ((value (codes "MYSQL_DATABASE") ≡ none) ⊎ (value (codes "MYSQL_ROOT_PASSWORD") ≡ none))
    × Preferred (value (codes "POSTGRES_DB")) (value (codes "PGDATABASE")) config.db_name
    × Preferred (value (codes "POSTGRES_PASSWORD")) (value (codes "PGPASSWORD")) config.password
    × (Preferred (value (codes "POSTGRES_USER")) (value (codes "PGUSER")) config.user
        ⊎ ((value (codes "POSTGRES_USER") ≡ none)
            × (value (codes "PGUSER") ≡ none)
            × (config.user ≡ codes "postgres")))

detect_of : (Text → Option Text) → Option (Backend × DbConfig)
detect_of value =
    with_mysql (both (value (codes "MYSQL_DATABASE")) (value (codes "MYSQL_ROOT_PASSWORD"))) (
      with_postgres
        (both (or_else (value (codes "POSTGRES_DB")) (value (codes "PGDATABASE")))
          (or_else (value (codes "POSTGRES_PASSWORD")) (value (codes "PGPASSWORD"))))
        (unwrap_or (or_else (value (codes "POSTGRES_USER")) (value (codes "PGUSER")))
          (codes "postgres")))
