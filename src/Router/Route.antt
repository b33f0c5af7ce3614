-- ===== src/Router/Route.antt =====
-- Which routes a router keeps.
use qt_network_protocol.Prelude.{
  ℕ, ◌≤◌, ◌<◌, ◌≡◌, List, [], false, length, lookup, contains, insert, remove, if◌then◌else◌, ltb,
  ◌==◌, ==_iff, arith, nat_eq, lookup-insert, ℕ_discrete, ap,
}
use qt_network_protocol.HostAddress.{HostAddress}
use qt_network_protocol.Router.{Router, time_insert, get_route, has_route, drop_route, update_route}

module _ (route_cache_limit transport_packages_cache : ℕ) where
  -- While no more packages are processed than the limit of routes allows, an update keeps the
  -- shorter of the two routes to a node, or the only one, and all other routes are as before.
  pub get_route-update_route :
      (now node key : ℕ) (route : List HostAddress) (r : Router)
      → length r.processed_packages ≤ route_cache_limit
      → get_route key (update_route route_cache_limit transport_packages_cache now node route r) ≡ (
          if node == key
          then (if has_route node r
              then (if ltb (length route) (length (get_route node r))
                  then route
                  else get_route node r)
              else route)
          else get_route key r)
  unfolding get_route update_route has_route contains
  get_route-update_route now node key route r h = elim (ℕ_discrete node key) [
    | yes e ↦ ground (
      arith,
      e,
      h,
      ==_iff node key,
      ap (λ k. lookup k r.routes) e,
      lookup-insert node key route r.routes,
    )
    | no e ↦ ground (arith, e, h, ==_iff node key, lookup-insert node key route r.routes)
  ]

  -- Once more packages are processed than the limit of routes allows, a router without routes
  -- forgets a route in the call that is to store it.
  pub update_route_forgets :
      (now node : ℕ) (route : List HostAddress) (r : Router)
      → route_cache_limit < length r.processed_packages
      → r.routes ≡ []
      → r.routes_time_map ≡ []
      → has_route node (update_route route_cache_limit transport_packages_cache now node route r)
        ≡ false
  unfolding has_route update_route drop_route time_insert contains lookup insert remove
  update_route_forgets now node route r over empty no_times =
      ground (arith, over, empty, no_times, ==_iff node node)
