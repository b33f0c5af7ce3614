-- ===== src/Router.antt =====
-- Heart/NetworkSpace/router.h and router.cpp: the routes that a node knows, and the packages that it
-- has processed.
--
-- A NodeId is a number that identifies it. A QMap of times is an association list in the order of
-- its keys; inserting under a key that it has replaces the value. `now` is the current second.
pub mod Processed
pub mod Route
use qt_network_protocol.Prelude.{
  ℕ, ◌<◌, List, [], ◌∷◌, Bool, true, false, ◌||◌, not, Option, none, some, length, Dict, nat_eq,
  lookup, contains, insert, remove, IdSet, member, set_insert, set_remove, if◌then◌else◌, ltb, ◌==◌,
}
use qt_network_protocol.HostAddress.{HostAddress}

abbrev pub TimeMap : Type 0
TimeMap = List (ℕ × ℕ)

-- QMap::insert
unfoldable pub time_insert : ℕ → ℕ → TimeMap → TimeMap
time_insert t id [] = (t, id) ∷ []
time_insert t id ((u, j) ∷ rest) =
    let behind = time_insert t id rest in
    if ltb t u then (t, id) ∷ (u, j) ∷ rest else if t == u then (t, id) ∷ rest else (u, j) ∷ behind

pub record Router : Type 0 where
  pub routes : Dict ℕ (List HostAddress)
  pub routes_time_map : TimeMap
  pub processed_packages : IdSet
  pub processed_packages_time_map : TimeMap

-- Router::getRoute
unfoldable pub get_route : ℕ → Router → List HostAddress
get_route node r = elim (lookup node r.routes) [ none ↦ [] | some route ↦ route ]

-- Router::contains
unfoldable pub has_route : ℕ → Router → Bool
has_route node r = contains node r.routes

-- Router::isProcessed
unfoldable pub is_processed : ℕ → Router → Bool
is_processed id r = member id r.processed_packages

-- The limits are ROUTE_CACHE_LIMIT and TRANSPORT_PACKAGES_CACHE of config.h.
module _ (route_cache_limit transport_packages_cache : ℕ) where
  -- The removal of the oldest entry in updateRoute.
  unfoldable pub drop_route : Router → Router
  drop_route r = elim r.routes_time_map [
    | [] ↦ r
    | (_, oldest) ∷ rest ↦ record r { routes = remove oldest r.routes; routes_time_map = rest }
  ]

  -- Router::updateRoute
  unfoldable pub update_route : ℕ → ℕ → List HostAddress → Router → Router
  update_route now node route r =
      if not (contains node r.routes) || ltb (length route) (length (get_route node r))
      then (let stored = record r {
        routes = insert node route r.routes;
        routes_time_map = time_insert now node r.routes_time_map;
      } in
          if ltb route_cache_limit (length r.processed_packages) then drop_route stored else stored)
      else r

  -- The removal of the oldest entry in addProcesedPackage.
  unfoldable pub drop_processed : Router → Router
  drop_processed r = elim r.processed_packages_time_map [
    | [] ↦ r
    | (_, oldest) ∷ rest ↦ record r {
      processed_packages = set_remove oldest r.processed_packages;
      processed_packages_time_map = rest;
    }
  ]

  -- Router::addProcesedPackage
  unfoldable pub add_procesed_package : ℕ → ℕ → Router → Router
  add_procesed_package now id r =
      let stored = record r {
        processed_packages = set_insert id r.processed_packages;
        processed_packages_time_map = time_insert now id r.processed_packages_time_map;
      } in
      if ltb transport_packages_cache (length stored.processed_packages)
      then drop_processed stored
      else stored
