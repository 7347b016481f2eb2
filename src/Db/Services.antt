-- ===== src/Db/Services.antt =====
-- The database services of a project: the credentials of an environment (src/db/mod.rs), and the
-- two services of a migration (`run_migrate` of src/db/migrate.rs).
pub mod Selection
pub mod Detection
use dip_rust.Base.{
  ℤ, pos, negsuc, any_of_Has, any_sound, le→ltb-false, is_nil, subst, some_inj, ltb→lt,
  ltb-false→le, leb→le, ℕ, zero, suc, ◌+◌, ◌-◌, ◌*◌, ◌/◌, ◌%◌, ◌^◌, ◌≤◌, ◌<◌, min, ◌≡◌, refl, sym,
  ap, ◌∙◌, ◌≢◌, ◌↔◌, ◌⊎◌, inl, inr, Bool, true, false, not, ◌&&◌, ◌||◌, Option, none, some, List,
  [], ◌∷◌, ◌++◌, map, append_assoc, append-nil, arith, ltb, leb, ◌==◌, if◌then◌else◌, ==_iff,
  Bool-cases, &&-true, Option-cases, ◌>>=◌, unwrap_or, or_else, is_some, length, get_elem?, take,
  drop, filter, any, find, Has, Has-append_left, Has-append_right, All, All-append, All-Has,
  All_of_Has, length-append, take-append-drop, take-length-append, drop-length-append, length-take,
  length-drop, get_elem?-lt,
}
use dip_rust.Env.{Env, lookup}
use dip_rust.Text.{
  Text, codes, char_len, byte_len, text_eq, is_empty, strip_prefix, starts_with, ends_with,
  contains_char, contains, is_whitespace, trim_start_by, keep_unless, trim_end_by, trim_start,
  trim_end, trim, trim_char, split_once, cons_to_first, split, before, join, drop_cr, lines_from,
  lines, replace_char, ascii_lower, to_ascii_lowercase, eq_ignore_ascii_case,
}

pub record DbConfig : Type 0 where
  pub db_name : Text
  pub password : Text
  pub user : Text

pub data Backend : Type 0 where
  mysql : Backend
  postgres : Backend

unfoldable pub backend_name : Backend → Text
backend_name mysql = codes "mysql"
backend_name postgres = codes "postgres"

-- A pattern `(Some(a), Some(b))`.
abbrev pub both {ℓ} : {A : Type ℓ} → Option A → Option A → Option (A × A)
both (some a) (some b) = some (a, b)
both (some a) none = none
both none o = none

-- The two branches of `detect`: name and password for MySQL, or else what is found later; name and
-- password for PostgreSQL, with a user, or else nothing.
abbrev pub with_mysql :
    Option (Text × Text) → Option (Backend × DbConfig) → Option (Backend × DbConfig)
with_mysql (some (db_name, password)) later =
    some (mysql, record { db_name = db_name; password = password; user = codes "root" })
with_mysql none later = later

abbrev pub with_postgres : Option (Text × Text) → Text → Option (Backend × DbConfig)
with_postgres (some (db_name, password)) user =
    some (postgres, record { db_name = db_name; password = password; user = user })
with_postgres none user = none

-- `none`: no credentials are found.
unfoldable pub detect : Env → Option (Backend × DbConfig)
detect env =
    with_mysql
      (both (lookup (codes "MYSQL_DATABASE") env) (lookup (codes "MYSQL_ROOT_PASSWORD") env))
      (with_postgres
        (both (or_else (lookup (codes "POSTGRES_DB") env) (lookup (codes "PGDATABASE") env))
          (or_else (lookup (codes "POSTGRES_PASSWORD") env) (lookup (codes "PGPASSWORD") env)))
        (unwrap_or (or_else (lookup (codes "POSTGRES_USER") env) (lookup (codes "PGUSER") env))
          (codes "postgres")))

-- `is_gzipped`; a path that is no text is `none`.
unfoldable pub is_gzipped : Option Text → Bool
is_gzipped none = false
is_gzipped (some path) = ends_with (codes ".gz") path

pub record DbService : Type 0 where
  pub service_name : Text
  pub container_id : Text
  pub backend : Backend
  pub config : DbConfig

-- `iter().position(test)`, and `swap_remove`, which panics out of bounds (`none`) and else puts the
-- last element in the place of the removed one.
unfoldable pub position {ℓ} : {A : Type ℓ} → (A → Bool) → List A → Option ℕ
position test [] = none
position test (x ∷ xs) =
    let later = position test xs in
    if test x then some 0 else elim later [ none ↦ none | some i ↦ some (suc i) ]

unfoldable pub set_elem {ℓ} : {A : Type ℓ} → ℕ → A → List A → List A
set_elem i a [] = []
set_elem zero a (x ∷ xs) = a ∷ xs
set_elem (suc i) a (x ∷ xs) = x ∷ set_elem i a xs

unfoldable pub swap_remove {ℓ} : {A : Type ℓ} → ℕ → List A → Option (A × List A)
unfolding set_elem
swap_remove i xs = do
  removed ← get_elem? xs i
  last ← get_elem? xs (length xs - 1)
  some (removed, take (length xs - 1) (set_elem i last xs))

-- The services to migrate from and to, a refusal with its message, or a panic.
pub data Pick : Type 0 where
  chosen : DbService → DbService → Pick
  refused : Text → Pick
  panicked : Pick

abbrev pub is_named : Text → DbService → Bool
is_named name s = text_eq s.service_name name

abbrev pub no_services : Text
no_services =
    codes
      "No database services found — add `dip.db: mysql` or `dip.db: postgres` labels to your docker-compose.yml"

abbrev pub not_found : Text → List DbService → Text
not_found name services =
    codes "Service '"
    ++ (name
        ++ (codes "' not found. Available: "
            ++ join (codes ", ") (map (λ (s : DbService). s.service_name) services)))

-- The removal of both, the higher index first.
unfoldable pub remove_both : List DbService → ℕ → ℕ → Pick
remove_both services from_idx to_idx =
    if ltb to_idx from_idx
    then elim (swap_remove from_idx services) [
      | none ↦ panicked
      | some (f, rest) ↦ elim (swap_remove to_idx rest) [
        | none ↦ panicked
        | some (t, left) ↦ chosen f t
      ]
    ]
    else elim (swap_remove to_idx services) [
      | none ↦ panicked
      | some (t, rest) ↦ elim (swap_remove from_idx rest) [
        | none ↦ panicked
        | some (f, left) ↦ chosen f t
      ]
    ]

unfoldable pub select_services : Text → Text → List DbService → Pick
select_services from to services =
    if is_nil services then refused no_services else elim (position (is_named from) services) [
      | none ↦
          refused (not_found from services ++ codes "\n  Run `dip db list` to see all services.")
      | some from_idx ↦ elim (position (is_named to) services) [
        | none ↦ refused (not_found to services)
        | some to_idx ↦
            if from_idx == to_idx
            then refused (codes "--from and --to must be different services")
            else remove_both services from_idx to_idx
      ]
    ]

-- The direction of a migration, if it is one of the two.
pub data Direction : Type 0 where
  mysql_to_pg : Direction
  pg_to_mysql : Direction

unfoldable pub direction : Backend → Backend → Option Direction
direction mysql postgres = some mysql_to_pg
direction postgres mysql = some pg_to_mysql
direction _ _ = none

-- `--tables a, b`.
unfoldable pub tables_filter : Option Text → Option (List Text)
unfolding split
tables_filter none = none
tables_filter (some names) = some (map (λ (s : Text). trim s) (split b',' names))

-- `mysql_get_tables` and `pg_get_tables`, on the names that the query returns.
unfoldable pub get_tables : Option (List Text) → List Text → List Text
get_tables wanted names =
    filter (λ t. elim wanted [ none ↦ true | some f ↦ any (λ x. text_eq x t) f ])
      (filter (λ t. not (is_empty t)) names)
