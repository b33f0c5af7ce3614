-- ===== src/Sql/Open.antt =====
-- sqldbwriter.cpp: initDbPrivate, initDb and isValid, and initDb of sqlitedbcache.cpp: opening the
-- database.
--
-- A QVariantMap is the list of its entries, by the text of the values. Files and the database are
-- parameters.
pub mod Missing
use qt_network_protocol.Prelude.{
  ℕ, List, [], ◌∷◌, Bool, true, false, ◌&&◌, not, Option, none, some, length, bytes_eq,
  if◌then◌else◌, ◌==◌, ◌≡◌, refl, arith,
}
use qt_network_protocol.Qt.{Text}

-- "DBDriver"
abbrev pub driver_key : Text
driver_key = 68 ∷ 66 ∷ 68 ∷ 114 ∷ 105 ∷ 118 ∷ 101 ∷ 114 ∷ []

-- "DBFilePath"
abbrev pub file_path_key : Text
file_path_key = 68 ∷ 66 ∷ 70 ∷ 105 ∷ 108 ∷ 101 ∷ 80 ∷ 97 ∷ 116 ∷ 104 ∷ []

-- "DBFile"
abbrev pub file_key : Text
file_key = 68 ∷ 66 ∷ 70 ∷ 105 ∷ 108 ∷ 101 ∷ []

-- "DBLogin"
abbrev pub login_key : Text
login_key = 68 ∷ 66 ∷ 76 ∷ 111 ∷ 103 ∷ 105 ∷ 110 ∷ []

-- "DBPass"
abbrev pub pass_key : Text
pass_key = 68 ∷ 66 ∷ 80 ∷ 97 ∷ 115 ∷ 115 ∷ []

-- "DBHost"
abbrev pub host_key : Text
host_key = 68 ∷ 66 ∷ 72 ∷ 111 ∷ 115 ∷ 116 ∷ []

-- "DBPort"
abbrev pub port_key : Text
port_key = 68 ∷ 66 ∷ 80 ∷ 111 ∷ 114 ∷ 116 ∷ []

-- "DBInitFile"
abbrev pub init_file_key : Text
init_file_key = 68 ∷ 66 ∷ 73 ∷ 110 ∷ 105 ∷ 116 ∷ 70 ∷ 105 ∷ 108 ∷ 101 ∷ []

-- "QSQLITE"
abbrev pub sqlite : Text
sqlite = 81 ∷ 83 ∷ 81 ∷ 76 ∷ 73 ∷ 84 ∷ 69 ∷ []

abbrev pub Config : Type 0
Config = List (Text × Text)

-- QMap::contains
unfoldable pub has_key : Text → Config → Bool
has_key key [] = false
has_key key ((name, value) ∷ rest) =
    let others = has_key key rest in if bytes_eq name key then true else others

-- operator [] of a QMap that is not const, which enters a missing key with an invalid value: the map
-- and the text of the value.
unfoldable pub index : Text → Config → Config × Text
index key [] = ((key, []) ∷ [], [])
index key ((name, value) ∷ rest) =
    let (others, found) = index key rest in
    if bytes_eq name key then ((name, value) ∷ rest, value) else ((name, value) ∷ others, found)

-- QSqlDatabase
pub record Database : Type 0 where
  pub driver : Text
  pub connection_name : Text
  pub database_name : Text
  pub password : Text
  pub host_name : Text
  pub port : Text

-- QFileInfo of a path, QDir::mkpath, QSqlDatabase::open and isValid, and SqlDBWriter::exec of a file
pub record Files : Type 0 where
  pub file_name : Text → Text
  pub absolute_path : Text → Text
  pub absolute_file_path : Text → Text
  pub mkpath : Text → Bool
  pub opens : Database → Bool
  pub is_valid_db : Database → Bool
  pub runs_file : Text → Bool

pub record Writer : Type 0 where
  pub config : Config
  pub db : Option Database
  pub init_successful : Bool

module _ (files : Files) where
  -- SqlDBWriter::initSqlDataBasse
  unfoldable pub init_sql_data_basse : Text → Text → Database
  init_sql_data_basse driver name = record {
    driver = driver;
    connection_name = files.file_name name;
    database_name = [];
    password = [];
    host_name = [];
    port = [];
  }

  -- The loop over the sources, each of which is run if those before it succeeded.
  unfoldable pub run_sources : List Text → Bool
  run_sources [] = true
  run_sources (file ∷ sources) =
      let rest = run_sources sources in if not (files.runs_file file) then false else rest

  -- An option that is set from the map, where it has the key
  unfoldable pub apply : Text → (Text → Database → Database) → Config → Database → Database
  apply key set config d = if has_key key config then set (index key config).1 d else d

  -- From the opening of the database on.
  unfoldable pub open_database : List Text → Config → Database → Writer × Bool
  open_database sources config d =
      let writer : Writer = record { config = config; db = some d; init_successful = false } in
      if not (files.opens d)
      then (writer, false)
      else if not (run_sources sources)
      then (writer, false)
      else if has_key init_file_key config
          && not (files.runs_file (files.absolute_file_path (index init_file_key config).1))
      then (writer, false)
      else (record writer { init_successful = files.is_valid_db d }, files.is_valid_db d)

  -- SqlDBWriter::initDbPrivate of a writer that was not successful before
  unfoldable pub init_db_private : List Text → Config → Writer × Bool
  init_db_private sources params =
      let (config1, driver) = index driver_key params in
      let (config, path) = index file_path_key config1 in
      let created = init_sql_data_basse driver path in
      if has_key file_path_key config && not (files.mkpath (files.absolute_path path))
      then (record { config = config; db = some created; init_successful = false }, false)
      else (let placed =
            apply file_path_key (λ v d. record d { database_name = files.absolute_file_path v })
              config created in
          -- the login is set as the password, too
          let login = apply login_key (λ v d. record d { password = v }) config placed in
          let pass = apply pass_key (λ v d. record d { password = v }) config login in
          let host = apply host_key (λ v d. record d { host_name = v }) config pass in
          let port = apply port_key (λ v d. record d { port = v }) config host in
          open_database sources config port)

  -- SqlDBWriter::isValid, for whether the database is open
  unfoldable pub writer_is_valid : Bool → Writer → Bool
  writer_is_valid is_open w = elim w.db [
    | none ↦ false
    | some d ↦ files.is_valid_db d && (is_open && w.init_successful)
  ]

  -- SqlDBWriter::defaultInitPararm, for DEFAULT_DB_PATH
  unfoldable pub default_init_pararm : Text → Config
  default_init_pararm default_path = (driver_key, sqlite) ∷ (file_key, default_path) ∷ []

  -- SqlDBWriter::initDb of a file of parameters, which getInitParams reads, on the writer's thread
  unfoldable pub init_db : (Text → Config) → Text → List Text → Text → Writer × Bool
  init_db get_init_params default_path sources init_file =
      if length init_file == 0
      then init_db_private sources (default_init_pararm default_path)
      else init_db_private sources (get_init_params init_file)

  -- SQLiteDBCachePrivate::initDb
  unfoldable pub init_sqlite : List Text → Config → Writer → Writer × Bool
  init_sqlite sources params w =
      if not (bytes_eq (index driver_key params).1 sqlite)
      then (w, false)
      else init_db_private sources params
