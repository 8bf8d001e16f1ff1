-- ===== src/Tests/Migrations.antt =====
-- The migration of a panel, at concrete inputs.
use gameapctl.Base.{
  ℕ, true, false, none, some, [], ◌∷◌, ◌++◌, codes, ok, ◌≡◌, refl, inr, is_space, has_prefix,
}
use gameapctl.EnvFile.{Env, entry_of, line_bytes}
use gameapctl.PanelMigration.{Machine, World, complete, moved, known_server, handle_v3_to_v4}
use gameapctl.PanelMigration.Config.{
  value, connection, mysql, Files, InstallConfig, sqlite, file_url, parse_v3_env, migrate_config,
}
use gameapctl.PanelMigration.Config.Databases.{IsKey}
use gameapctl.PanelMigration.Config.Logins.{IsReadable, IsDatabaseOf, migrate_config-IsDatabaseOf}

-- v4 is installed and starts, and no check passes. Trees and configurations are numbers.
abbrev machine : Machine ℕ ℕ
machine = record {
  web_server = known_server;
  site_path = true;
  has_env = true;
  parses_env = true;
  make_temp = true;
  copy_tree = λ n. complete;
  copy_site = λ n. complete;
  builds_config = true;
  migrates_database = true;
  install = λ n. true;
  start = λ n. true;
  stop = λ n. true;
  proxy = 9;
  write_site = λ n. complete;
  check = λ n. false;
  make_archive = true;
  remove_tree = λ n. complete;
  move_tree = λ n. moved;
}

abbrev world : World ℕ ℕ
world = record {
  v3 = some 3;
  copy = none;
  archive = none;
  site = some 1;
  site_backup = none;
  running = false;
  rolled_back = none;
  calls = 0;
}

handle_v3_to_v4-site : (handle_v3_to_v4 machine true world).1.site ≡ some 1
unfolding handle_v3_to_v4
handle_v3_to_v4-site = refl

abbrev v3_env : Env
v3_env =
    (codes "APP_KEY", codes "base64:abc")
    ∷ (codes "DB_CONNECTION", codes "sqlite")
    ∷ (codes "DB_DATABASE", codes "db.sqlite")
    ∷ []

abbrev files : Files
files = record {
  is_abs = λ path. has_prefix path (codes "/");
  join_path = λ dir path. dir ++ (b'/' ∷ path);
  exists = λ path. true;
  copies = λ from to. true;
}

abbrev config : InstallConfig
config = record {
  driver = sqlite;
  database_url = file_url (codes "/var/lib/gameap/gameap.db");
  encryption_key = codes "base64:abc";
  auth_secret = codes "base64:s";
}

migrated_config :
    migrate_config files
      (codes "/var/www/gameap")
      (codes "/var/lib/gameap")
      (codes "r")
      (codes "s")
      v3_env
    ≡ ok config
unfolding migrate_config
migrated_config = refl

abbrev mysql_env : Env
mysql_env =
    (codes "DB_USERNAME", codes "u")
    ∷ (codes "DB_PASSWORD", codes "p")
    ∷ (codes "DB_HOST", codes "h")
    ∷ (codes "DB_PORT", codes "1")
    ∷ (codes "DB_DATABASE", codes "d")
    ∷ []

abbrev mysql_config : InstallConfig
mysql_config = record {
  driver = mysql;
  database_url = codes "u:p@tcp(h:1)/d?parseTime=true";
  encryption_key = codes "base64:r";
  auth_secret = codes "base64:s";
}

migrated_mysql :
    migrate_config files
      (codes "/var/www/gameap")
      (codes "/var/lib/gameap")
      (codes "r")
      (codes "s")
      mysql_env
    ≡ ok mysql_config
unfolding migrate_config
migrated_mysql = refl

mysql_env-IsReadable : IsReadable mysql_env
unfolding value connection
mysql_env-IsReadable = inr (
  ((refl, tt), (refl, tt), (refl, tt), (refl, tt), (refl, tt)),
  ((refl, tt), (refl, tt), (refl, tt), (refl, tt), (refl, tt)),
)

migrate_config-IsDatabaseOf_example :
    IsKey mysql_env (codes "base64:r")
    × IsDatabaseOf files
        (codes "/var/www/gameap")
        (codes "/var/lib/gameap")
        mysql_env
        mysql
        (codes "u:p@tcp(h:1)/d?parseTime=true")
migrate_config-IsDatabaseOf_example =
    migrate_config-IsDatabaseOf files (codes "/var/www/gameap") (codes "/var/lib/gameap")
      (codes "r") (codes "s") mysql_env mysql_config mysql_env-IsReadable migrated_mysql

parse_v3_env-quoted :
    parse_v3_env (codes "A='b=\"c'\n#D=1") ≡ some ((codes "A", codes "b=\"c") ∷ [])
unfolding parse_v3_env is_space entry_of line_bytes
parse_v3_env-quoted = refl
