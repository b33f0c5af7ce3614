-- ===== src/Tests/AsyncTests.antt =====
-- The queue of jobs and the opening of the database at concrete inputs.
use qt_network_protocol.Prelude.{ℕ, ◌+◌, ◌≡◌, refl, [], ◌∷◌, Bool, true, false, some, none, arith}
use mathlib.Core.Option.{map as map_option}
use qt_network_protocol.Async.{Queued, async_launcher}
use qt_network_protocol.Async.Awaited.{state, seen, async_launcher-awaited}
use qt_network_protocol.Async.Abandoned.{go_on, async_launcher-abandoned}
use qt_network_protocol.Sql.Open.{
  init_db_private, sqlite, file_key, Config, driver_key, Files, has_key, index, open_database,
  apply, run_sources, Database,
}
use qt_network_protocol.Sql.Open.Missing.{init_db_private-opened}

-- A job that adds a number to the world and succeeds.
abbrev adds : ℕ → ℕ → ℕ × Bool
adds n w = (w + n, true)

abbrev free : ℕ → Queued ℕ
free n = record { job = adds n; frame = none }

async_launcher-awaited_example :
    seen (async_launcher false true true 3 (adds 5) true (state 1 (free 2 ∷ free 3 ∷ []) [] 0))
    ≡ some (11, [], true)
async_launcher-awaited_example =
    async_launcher-awaited (state 1 (free 2 ∷ free 3 ∷ []) [] 0) (adds 5) 3 (refl, (refl, tt))
      (omega arith)

async_launcher-abandoned_example :
    let called =
      async_launcher false true true 1 (adds 5) true (state 1 (free 2 ∷ free 3 ∷ []) [] 0) in
    let own : Queued ℕ = record { job = adds 5; frame = some 0 } in
    (seen called ≡ some (3, free 3 ∷ own ∷ [], false)) × (go_on 2 called ≡ none)
async_launcher-abandoned_example =
    async_launcher-abandoned (free 2 ∷ []) (free 3 ∷ []) (adds 5) 1 [] 0 (refl, tt) (refl, tt)

abbrev files : Files
files = record {
  file_name = λ path. path;
  absolute_path = λ path. 46 ∷ [];
  absolute_file_path = λ path. 47 ∷ path;
  mkpath = λ path. true;
  opens = λ d. true;
  is_valid_db = λ d. true;
  runs_file = λ file. true;
}

-- Parameters without DBFilePath.
abbrev config : Config
config = (driver_key, sqlite) ∷ (file_key, 47 ∷ []) ∷ []

init_db_private-opened_example :
    (files.mkpath (files.absolute_path []) ≡ true)
    × (map_option
          (λ (d : Database). d.database_name)
          ((init_db_private files ((98 ∷ []) ∷ []) config).0).db
        ≡ some (47 ∷ []))
unfolding has_key index init_db_private open_database apply run_sources
init_db_private-opened_example = init_db_private-opened files ((98 ∷ []) ∷ []) config refl
