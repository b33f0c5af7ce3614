-- ===== src/Tests/RouterTests.antt =====
-- The router at concrete inputs.
use qt_network_protocol.Prelude.{[], ◌∷◌, nat_eq}
use qt_network_protocol.Router.{Router}
use qt_network_protocol.Tests.Samples.{peer}

abbrev router : Router
router = record {
  routes = (5, peer ∷ peer ∷ []) ∷ [];
  routes_time_map = (100, 5) ∷ [];
  processed_packages = 7 ∷ 8 ∷ [];
  processed_packages_time_map = (100, 8) ∷ [];
}
