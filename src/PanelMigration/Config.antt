-- ===== src/PanelMigration/Config.antt =====
-- What the migration takes from the `.env` of v3: `parseV3Env`, `buildDatabaseURL`,
-- `buildInstallConfig` and `handleSQLiteMigration`. Random bytes, in base64, are parameters.
pub mod Databases
pub mod Logins
use gameapctl.Base.{
  ℕ, Bool, true, false, not, ◌&&◌, ◌||◌, Option, none, some, List, [], ◌∷◌, ◌++◌, reverse, Text,
  codes, Result, ok, err, ◌>>=◌, if◌then◌else◌, is_empty, text_eq, has_prefix, ◌==◌, ◌≡◌, ◌↔◌, ◌⊎◌,
  inl, inr, refl, Bool-cases, if-holds, arith,
}
use gameapctl.EnvFile.{Env, get, put, parse_line, scan_lines, is_scannable}

abbrev is_quote : ℕ → Bool
is_quote c = c == b'"' || c == b'\''

unfoldable pub trim_quotes_left : Text → Text
trim_quotes_left [] = []
trim_quotes_left (c ∷ s) = let rest = trim_quotes_left s in if is_quote c then rest else c ∷ s

-- strings.Trim with the two quotes.
unfoldable pub trim_quotes : Text → Text
unfolding trim_quotes_left
trim_quotes s = reverse (trim_quotes_left (reverse (trim_quotes_left s)))

abbrev pub put_unquoted : Option (Text × Text) → Env → Env
unfolding put trim_quotes
put_unquoted none m = m
put_unquoted (some (k, v)) m = put k (trim_quotes v) m

unfoldable pub read_v3_values : Env → List Text → Env
unfolding parse_line put_unquoted
read_v3_values m [] = m
read_v3_values m (line ∷ lines) = read_v3_values (put_unquoted (parse_line line) m) lines

-- `parseV3Env` of a file that is opened, or `none` for an error of the scanner.
unfoldable pub parse_v3_env : Text → Option Env
unfolding scan_lines read_v3_values is_scannable
parse_v3_env s = if is_scannable s then some (read_v3_values [] (scan_lines s)) else none

pub data Driver : Type 0 where
  mysql postgres sqlite : Driver

pub data ConfigError : Type 0 where
  no_database_path unsupported_connection no_database_file copy_failed : ConfigError

abbrev or_blank : Option Text → Text
or_blank none = []
or_blank (some v) = v

-- `v3Config[key]`
unfoldable pub value : Env → Text → Text
unfolding get
value m key = or_blank (get key m)

abbrev pub or_default : Text → Text → Text
or_default v default = if is_empty v then default else v

abbrev pub file_url : Text → Text
file_url path =
    codes "file:" ++ (path ++ codes "?_busy_timeout=5000&_journal_mode=WAL&cache=shared")

unfoldable pub mysql_url : Env → Text
unfolding value
mysql_url m =
    value m (codes "DB_USERNAME")
    ++ (b':'
        ∷ (value m (codes "DB_PASSWORD")
            ++ (codes "@tcp("
                ++ (or_default (value m (codes "DB_HOST")) (codes "localhost")
                    ++ (b':'
                        ∷ (or_default (value m (codes "DB_PORT")) (codes "3306")
                            ++ (codes ")/"
                                ++ (or_default (value m (codes "DB_DATABASE")) (codes "gameap")
                                    ++ codes "?parseTime=true"))))))))

unfoldable pub postgres_url : Env → Text
unfolding value
postgres_url m =
    codes "postgres://"
    ++ (value m (codes "DB_USERNAME")
        ++ (b':'
            ∷ (value m (codes "DB_PASSWORD")
                ++ (b'@'
                    ∷ (or_default (value m (codes "DB_HOST")) (codes "localhost")
                        ++ (b':'
                            ∷ (or_default (value m (codes "DB_PORT")) (codes "5432")
                                ++ (b'/'
                                    ∷ (or_default (value m (codes "DB_DATABASE")) (codes "gameap")
                                        ++ codes "?sslmode=disable")))))))))

unfoldable pub connection : Env → Text
unfolding value
connection m = or_default (value m (codes "DB_CONNECTION")) (codes "mysql")

unfoldable pub is_postgres : Text → Bool
unfolding text_eq
is_postgres c =
    text_eq c (codes "pgsql") || text_eq c (codes "postgres") || text_eq c (codes "postgresql")

unfoldable pub build_database_url : Env → Result ConfigError (Driver × Text)
unfolding connection is_postgres text_eq mysql_url postgres_url value
build_database_url m =
    if text_eq (connection m) (codes "mysql")
    then ok (mysql, mysql_url m)
    else if is_postgres (connection m)
    then ok (postgres, postgres_url m)
    else if text_eq (connection m) (codes "sqlite")
    then (if is_empty (value m (codes "DB_DATABASE"))
        then err no_database_path
        else ok (sqlite, file_url (value m (codes "DB_DATABASE"))))
    else err unsupported_connection

-- The part of the configuration that depends on v3.
pub record InstallConfig : Type 0 where
  pub driver : Driver
  pub database_url : Text
  pub encryption_key : Text
  pub auth_secret : Text

unfoldable pub kept_key : Text → Env → Text
unfolding value has_prefix
kept_key random m =
    let key = value m (codes "APP_KEY") in
    if is_empty key || not (has_prefix key (codes "base64:"))
    then codes "base64:" ++ random
    else key

unfoldable pub config_with : Text → Text → Env → Driver × Text → InstallConfig
unfolding kept_key
config_with random secret m (driver, url) = record {
  driver = driver;
  database_url = url;
  encryption_key = kept_key random m;
  auth_secret = codes "base64:" ++ secret;
}

unfoldable pub build_install_config : Text → Text → Env → Result ConfigError InstallConfig
unfolding build_database_url config_with
build_install_config random secret m =
    build_database_url m >>= λ database. ok (config_with random secret m database)

-- filepath.IsAbs and filepath.Join, the existence of a file, and the copy to the data directory.
pub record Files : Type 0 where
  pub is_abs : Text → Bool
  pub join_path : Text → Text → Text
  pub exists : Text → Bool
  pub copies : Text → Text → Bool

unfoldable pub v3_database : Files → Text → Env → Text
unfolding value
v3_database files v3_path m =
    let path = value m (codes "DB_DATABASE") in
    if files.is_abs path then path else files.join_path v3_path path

abbrev pub v4_database : Files → Text → Text
v4_database files data_dir = files.join_path data_dir (codes "gameap.db")

unfoldable pub handle_sqlite_migration :
    Files → Text → Text → Env → InstallConfig → Result ConfigError InstallConfig
unfolding value v3_database
handle_sqlite_migration files v3_path data_dir m config =
    if is_empty (value m (codes "DB_DATABASE"))
    then err no_database_path
    else if not (files.exists (v3_database files v3_path m))
    then err no_database_file
    else if not (files.copies (v3_database files v3_path m) (v4_database files data_dir))
    then err copy_failed
    else ok (record config { database_url = file_url (v4_database files data_dir) })

unfoldable pub migrated :
    Files → Text → Text → Env → Driver → InstallConfig → Result ConfigError InstallConfig
unfolding handle_sqlite_migration
migrated files v3_path data_dir m sqlite config =
    handle_sqlite_migration files v3_path data_dir m config
migrated files v3_path data_dir m mysql config = ok config
migrated files v3_path data_dir m postgres config = ok config

-- The configuration of v4 that the migration installs.
unfoldable pub migrate_config :
    Files → Text → Text → Text → Text → Env → Result ConfigError InstallConfig
unfolding build_install_config migrated
migrate_config files v3_path data_dir random secret m =
    build_install_config random secret m >>= λ config.
    migrated files v3_path data_dir m config.driver config
