-- ===== src/Tests/CacheTests.antt =====
-- The cache and the database node at concrete inputs.
use qt_network_protocol.Prelude.{◌≡◌, refl, [], ◌∷◌, true, false, nat_eq}
use qt_network_protocol.Cache.{
  force, delete_call, insert_call, delete_object, insert_object, prepare_for_delete,
}
use qt_network_protocol.Cache.Lost.{delete_object_again}
use qt_network_protocol.Tests.CacheSamples.{thing, lazy_cache, readable}

delete_object_again_example :
    let through = record lazy_cache { mode = force } in
    let removed = (delete_object readable (thing 5) false through).0 in
    let stored = (insert_object readable 200 (thing 5) false removed).0 in
    (prepare_for_delete readable 300 stored).calls
    ≡ delete_call (thing 5) false ∷ insert_call (thing 5) false ∷ delete_call (thing 5) true ∷ []
delete_object_again_example =
    delete_object_again readable 200 300 (thing 5) (thing 5) false false
      (record lazy_cache { mode = force }) refl refl refl refl refl
