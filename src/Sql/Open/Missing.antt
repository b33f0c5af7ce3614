-- ===== src/Sql/Open/Missing.antt =====
-- Opening a database without a path.
use qt_network_protocol.Prelude.{
  ◌≡◌, ◌∙◌, refl, sym, ap, List, [], ◌∷◌, true, false, Bool, Bool-cases, inl, inr, bytes_eq,
  bytes_eq_refl, arith, some,
}
use mathlib.Core.Option.{map as map_option}
use qt_network_protocol.Qt.{Text}
use qt_network_protocol.Sql.Open.{
  Config, has_key, index, Files, driver_key, file_path_key, init_db_private, open_database, apply,
  Database, Writer, init_sql_data_basse, login_key, pass_key, host_key, port_key,
}

has_key-index : (key : Text) (config : Config) → has_key key (index key config).0 ≡ true
unfolding has_key index
has_key-index key [] = ground (arith, bytes_eq_refl key)
has_key-index key ((name, value) ∷ rest) = ground (arith, has_key-index key rest)

index-missing :
    (key : Text) (config : Config) → has_key key config ≡ false → (index key config).1 ≡ []
unfolding has_key index
index-missing key [] h = refl
index-missing key ((name, value) ∷ rest) h = elim (Bool-cases (bytes_eq name key)) [
  | inl e ↦ absurd (ground (arith, e, h))
  | inr e ↦ ground (arith, e, index-missing key rest (ground (arith, e, h)))
]

has_key-index_other :
    (key other : Text) (config : Config)
    → bytes_eq other key ≡ false
    → has_key key (index other config).0 ≡ has_key key config
unfolding has_key index
has_key-index_other key other [] d = ground (arith, d)
has_key-index_other key other ((name, value) ∷ rest) d =
    ground (arith, has_key-index_other key other rest d)

index_other :
    (key other : Text) (config : Config)
    → bytes_eq other key ≡ false
    → (index key (index other config).0).1 ≡ (index key config).1
unfolding index
index_other key other [] d = ground (arith, d)
index_other key other ((name, value) ∷ rest) d = ground (arith, index_other key other rest d)

index-index :
    (key : Text) (config : Config) → (index key (index key config).0).1 ≡ (index key config).1
unfolding index
index-index key [] = ground (arith, bytes_eq_refl key)
index-index key ((name, value) ∷ rest) = ground (arith, index-index key rest)

module _ (files : Files) where
  database_name-apply :
      (key : Text) (set : Text → Database → Database) (config : Config) (d : Database)
      → ((v : Text) (e : Database) → (set v e).database_name ≡ e.database_name)
      → (apply files key set config d).database_name ≡ d.database_name
  unfolding apply
  database_name-apply key set config d h = ground (arith, h (index key config).1 d)

  database_name-placed :
      (config : Config) (d : Database)
      → has_key file_path_key config ≡ true
      → (apply files file_path_key
          (λ v d. record d { database_name = files.absolute_file_path v })
          config
          d).database_name
        ≡ files.absolute_file_path (index file_path_key config).1
  unfolding apply
  database_name-placed config d h = ground (arith, h)

  db-open_database :
      (sources : List Text) (config : Config) (d : Database)
      → (open_database files sources config d).0.db ≡ some d
  unfolding open_database
  db-open_database sources config d = ground arith

  -- The database with all its options, in the order in which they are set.
  abbrev configured : Config → Database → Database
  configured config d =
      let set_name =
        λ (v : Text) (e : Database). record e { database_name = files.absolute_file_path v } in
      let set_password = λ (v : Text) (e : Database). record e { password = v } in
      let set_host = λ (v : Text) (e : Database). record e { host_name = v } in
      let set_port = λ (v : Text) (e : Database). record e { port = v } in
      let placed = apply files file_path_key set_name config d in
      let login = apply files login_key set_password config placed in
      let pass = apply files pass_key set_password config login in
      apply files port_key set_port config (apply files host_key set_host config pass)

  database_name-configured :
      (config : Config) (d : Database)
      → has_key file_path_key config ≡ true
      → (configured config d).database_name
        ≡ files.absolute_file_path (index file_path_key config).1
  database_name-configured config d h =
      database_name-apply port_key _ config _ (λ v e. refl)
      ∙ database_name-apply host_key _ config _ (λ v e. refl)
      ∙ database_name-apply pass_key _ config _ (λ v e. refl)
      ∙ database_name-apply login_key _ config _ (λ v e. refl)
      ∙ database_name-placed config d h

  -- Initialising succeeds only if the directory of the text under DBFilePath could be made, and the
  -- database then has the absolute path of that text, also where the parameters do not have the
  -- key: the text is then empty.
  pub init_db_private-opened :
      (sources : List Text) (params : Config)
      → (init_db_private files sources params).1 ≡ true
      → let path = (index file_path_key params).1 in
        (files.mkpath (files.absolute_path path) ≡ true)
        × (map_option
              (λ (d : Database). d.database_name)
              ((init_db_private files sources params).0).db
            ≡ some (files.absolute_file_path path))
  unfolding init_db_private
  init_db_private-opened sources params h =
      let first : Config = (index driver_key params).0 in
      let config : Config = (index file_path_key first).0 in
      let path : Text = (index file_path_key first).1 in
      let made = init_sql_data_basse files (index driver_key params).1 path in
      let there = has_key-index file_path_key first in
      let same : path ≡ (index file_path_key params).1 =
        index_other file_path_key driver_key params refl in
      elim (Bool-cases (files.mkpath (files.absolute_path path))) [
        | inr fails ↦ absurd (ground (arith, there, fails, h))
        | inl makes ↦
            let opened : init_db_private files sources params
                ≡ open_database files sources config (configured config made) =
              ground (arith, there, makes) in
            let name =
              database_name-configured config made there
              ∙ ap files.absolute_file_path (index-index file_path_key first ∙ same) in
            (
              ap (λ (p : Text). files.mkpath (files.absolute_path p)) (sym same) ∙ makes,
              ap (λ (r : Writer × Bool). map_option (λ (d : Database). d.database_name) r.0.db)
                    opened
                  ∙ ap (map_option (λ (d : Database). d.database_name))
                      (db-open_database sources config (configured config made))
                  ∙ ap some name,
            )
      ]
