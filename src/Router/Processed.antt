-- ===== src/Router/Processed.antt =====
-- Which packages a router remembers to have processed.
use qt_network_protocol.Prelude.{
  ℕ, suc, ◌<◌, ◌≡◌, [], ◌∷◌, false, ◌||◌, length, member, IdSet, set_insert, ◌==◌, ==_iff, arith,
  member-set_insert, member-set_remove,
}
use qt_network_protocol.Router.{
  Router, time_insert, is_processed, drop_processed, add_procesed_package,
}

length-set_insert :
    (a : ℕ) (xs : IdSet) → member a xs ≡ false → length (set_insert a xs) ≡ suc (length xs)
unfolding set_insert
length-set_insert a xs h = ground (arith, h)

module _ (route_cache_limit transport_packages_cache : ℕ) where
  -- While there is room, a package that is added is remembered, and of the others exactly those that
  -- were before.
  pub is_processed-add_procesed_package :
      (now id key : ℕ) (r : Router)
      → length r.processed_packages < transport_packages_cache
      → is_processed key (add_procesed_package route_cache_limit transport_packages_cache now id r)
        ≡ (id == key || is_processed key r)
  unfolding is_processed add_procesed_package set_insert
  is_processed-add_procesed_package now id key r h =
      ground (arith, h, member-set_insert id key r.processed_packages)

  -- When the table is full and all that it knows was processed within the current second, the
  -- package that is added is the one that is thrown out: right after the call the router does not
  -- know that it has processed it.
  pub add_procesed_package_forgets :
      (now id newest : ℕ) (r : Router)
      → length r.processed_packages ≡ transport_packages_cache
      → r.processed_packages_time_map ≡ (now, newest) ∷ []
      → member id r.processed_packages ≡ false
      → is_processed id (add_procesed_package route_cache_limit transport_packages_cache now id r)
        ≡ false
  unfolding is_processed add_procesed_package drop_processed time_insert
  add_procesed_package_forgets now id newest r full only fresh = ground (
    arith,
    full,
    only,
    fresh,
    ==_iff now now,
    ==_iff id id,
    length-set_insert id r.processed_packages fresh,
    member-set_remove id id (set_insert id r.processed_packages),
  )
