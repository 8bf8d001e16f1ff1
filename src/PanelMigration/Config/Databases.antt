-- ===== src/PanelMigration/Config/Databases.antt =====
-- The configuration that the migration installs, by the `.env` of v3.
use gameapctl.Base.{
  Bool, true, false, not, ◌||◌, [], ◌∷◌, ◌++◌, Text, codes, Result, ok, err, bind-ok, ok-injective,
  is_empty, text_eq, text_eq_iff, has_prefix, ◌≡◌, ◌≢◌, refl, sym, subst, if-holds, arith,
}
use gameapctl.EnvFile.{Env}
use gameapctl.PanelMigration.Config.{
  Driver, mysql, postgres, sqlite, ConfigError, value, file_url, mysql_url, postgres_url,
  connection, is_postgres, build_database_url, InstallConfig, kept_key, config_with,
  build_install_config, Files, v3_database, v4_database, handle_sqlite_migration, migrated,
  migrate_config,
}

-- The driver is the one of the connection, with its URL; for SQLite the file of v3 was there and is
-- copied, and the URL names the copy.
abbrev pub IsDatabase : Files → Text → Text → Env → Driver → Text → Type 0
IsDatabase files v3_path data_dir m mysql url = (connection m ≡ codes "mysql") × (url ≡ mysql_url m)
IsDatabase files v3_path data_dir m postgres url =
    (is_postgres (connection m) ≡ true) × (url ≡ postgres_url m)
IsDatabase files v3_path data_dir m sqlite url =
    (connection m ≡ codes "sqlite")
    × (value m (codes "DB_DATABASE") ≢ [])
    × (files.copies (v3_database files v3_path m) (v4_database files data_dir) ≡ true)
    × (url ≡ file_url (v4_database files data_dir))

abbrev pub IsKey : Env → Text → Type 0
IsKey m key =
    (has_prefix key (codes "base64:") ≡ true)
    × (has_prefix (value m (codes "APP_KEY")) (codes "base64:") ≡ true
        → key ≡ value m (codes "APP_KEY"))

has_prefix_base64 :
    (random : Text) → has_prefix (codes "base64:" ++ random) (codes "base64:") ≡ true
unfolding has_prefix
has_prefix_base64 random = refl

unkept :
    (key : Text)
    → (is_empty key || not (has_prefix key (codes "base64:"))) ≡ true
    → has_prefix key (codes "base64:") ≡ true
    → ⊥
unfolding has_prefix
unkept [] h p = cc
unkept (c ∷ s) h p = ground arith

kept_key-IsKey : (random : Text) (m : Env) → IsKey m (kept_key random m)
unfolding kept_key
kept_key-IsKey random m =
    let key = value m (codes "APP_KEY") in
    if-holds (IsKey m) (is_empty key || not (has_prefix key (codes "base64:")))
      (λ h. (has_prefix_base64 random, λ p. absurd (unkept key h p)))
      (λ h. (ground arith, λ p. refl))

-- The same before the database of SQLite is copied.
abbrev IsSource : Env → Driver × Text → Type 0
IsSource m (mysql, url) = (connection m ≡ codes "mysql") × (url ≡ mysql_url m)
IsSource m (postgres, url) = (is_postgres (connection m) ≡ true) × (url ≡ postgres_url m)
IsSource m (sqlite, url) = (connection m ≡ codes "sqlite") × (value m (codes "DB_DATABASE") ≢ [])

abbrev IsSound : Env → Result ConfigError (Driver × Text) → Type 0
IsSound m (err e) = Unit {0}
IsSound m (ok d) = IsSource m d

is_empty_ne : (s : Text) → is_empty s ≡ false → s ≢ []
is_empty_ne [] h = cc
is_empty_ne (c ∷ s) h = λ e. cc

build_database_url-IsSound : (m : Env) → IsSound m (build_database_url m)
unfolding build_database_url
build_database_url-IsSound m =
    if-holds (IsSound m) (text_eq (connection m) (codes "mysql"))
      (λ h. ((text_eq_iff (connection m) (codes "mysql")).0 h, refl))
      (λ _.
        if-holds (IsSound m) (is_postgres (connection m)) (λ h. (h, refl))
          (λ _.
            if-holds (IsSound m) (text_eq (connection m) (codes "sqlite"))
              (λ h.
                if-holds (IsSound m) (is_empty (value m (codes "DB_DATABASE"))) (λ _. tt)
                  (λ path. (
                    (text_eq_iff (connection m) (codes "sqlite")).0 h,
                    is_empty_ne (value m (codes "DB_DATABASE")) path,
                  )))
              (λ _. tt)))

-- The configuration has the database of v3, and the key of v3 if that is one of v4.
abbrev pub IsConfig : Files → Text → Text → Env → InstallConfig → Type 0
IsConfig files v3_path data_dir m config =
    IsKey m config.encryption_key
    × IsDatabase files v3_path data_dir m config.driver config.database_url

-- The file of v3 was there and was copied.
abbrev IsCopied :
    Files → Text → Text → Env → InstallConfig → Result ConfigError InstallConfig → Type 0
IsCopied files v3_path data_dir m config (err e) = Unit {0}
IsCopied files v3_path data_dir m config (ok c) =
    (c ≡ record config { database_url = file_url (v4_database files data_dir) })
    × (files.copies (v3_database files v3_path m) (v4_database files data_dir) ≡ true)

unnegated : (b : Bool) → not b ≡ false → b ≡ true
unnegated true h = refl
unnegated false h = cc

handle_sqlite_migration-IsCopied :
    (files : Files) (v3_path data_dir : Text) (m : Env) (config : InstallConfig)
    → IsCopied files v3_path data_dir m config
        (handle_sqlite_migration files v3_path data_dir m config)
unfolding handle_sqlite_migration
handle_sqlite_migration-IsCopied files v3_path data_dir m config =
    let from = v3_database files v3_path m in
    let copies = files.copies from (v4_database files data_dir) in
    if-holds (IsCopied files v3_path data_dir m config) (is_empty (value m (codes "DB_DATABASE")))
      (λ _. tt)
      (λ _.
        if-holds (IsCopied files v3_path data_dir m config) (not (files.exists from)) (λ _. tt)
          (λ _.
            if-holds (IsCopied files v3_path data_dir m config) (not copies) (λ _. tt)
              (λ h. (refl, unnegated copies h))))

module _ (files : Files) (v3_path data_dir random secret : Text) (m : Env) where
  -- The database of SQLite, with the copy.
  copied-IsConfig :
      (url : Text) (config : InstallConfig)
      → IsSource m (sqlite, url)
      → IsCopied files v3_path data_dir m (config_with random secret m (sqlite, url)) (ok config)
      → IsConfig files v3_path data_dir m config
  unfolding config_with
  copied-IsConfig url config (same, path) (made, copies) =
      subst (IsConfig files v3_path data_dir m) (sym made)
        (kept_key-IsKey random m, (same, path, copies, refl))

  migrated-IsConfig :
      (d : Driver × Text) (config : InstallConfig)
      → IsSource m d
      → migrated files v3_path data_dir m d.0 (config_with random secret m d) ≡ ok config
      → IsConfig files v3_path data_dir m config
  unfolding migrated config_with
  migrated-IsConfig (mysql, url) config source h =
      subst (IsConfig files v3_path data_dir m) (ok-injective h) (kept_key-IsKey random m, source)
  migrated-IsConfig (postgres, url) config source h =
      subst (IsConfig files v3_path data_dir m) (ok-injective h) (kept_key-IsKey random m, source)
  migrated-IsConfig (sqlite, url) config source h =
      let made = config_with random secret m (sqlite, url) in
      copied-IsConfig url config source (
        subst (IsCopied files v3_path data_dir m made) h
          (handle_sqlite_migration-IsCopied files v3_path data_dir m made))

  -- A configuration that the migration installs has the database of v3, by the driver of its
  -- connection, where the file of SQLite is copied first, and an encryption key of v4's form, which is
  -- the key of v3 if that has this form.
  pub migrate_config-IsConfig :
      (config : InstallConfig)
      → migrate_config files v3_path data_dir random secret m ≡ ok config
      → IsConfig files v3_path data_dir m config
  unfolding migrate_config build_install_config config_with
  migrate_config-IsConfig config h =
      let (made, built, done) = bind-ok (build_install_config random secret m) _ h in
      let (d, read, same) = bind-ok (build_database_url m) _ built in
      migrated-IsConfig d config (subst (IsSound m) read (build_database_url-IsSound m)) (
        subst (λ c. migrated files v3_path data_dir m c.driver c ≡ ok config)
          (sym (ok-injective same)) done)
