-- ===== src/Cache/Change.antt =====
-- isqldbcache.cpp: changeObjects.
--
-- The change action is a function on the object with a state R of its own and the cache, which it may
-- read. An object that came out of the cache is shared with it: what the action does to the object
-- is done to the entry of the cache.
use qt_network_protocol.Prelude.{
  ℕ, List, [], ◌∷◌, Bool, true, false, not, none, some, nat_eq, contains, insert, if◌then◌else◌,
}
use qt_network_protocol.Database.Object.{DbObject}
use qt_network_protocol.Cache.{Cache, Sql, get_from_cache, get_all_objects, update_object}

-- What an action returns: the changed object, whether it went well, and the states.
pub record Changed (R : Type 0) : Type 0 where
  pub object : DbObject
  pub done : Bool
  pub state : R
  pub cache : Cache

-- Whether getAllObjects will answer with an entry of the cache.
unfoldable pub is_shared : DbObject → Cache → Bool
is_shared template c = elim (get_from_cache template c) [ [] ↦ false | _ ∷ _ ↦ true ]

unfoldable pub share : Bool → ℕ → DbObject → Cache → Cache
share shared key obj c =
    if shared
    then (if contains key c.cache then record c { cache = insert key obj c.cache } else c)
    else c

module _ {R : Type 0} (sql : Sql) (now : ℕ) (action : DbObject → R → Cache → Changed R) where
  -- The loop of changeObjects.
  unfoldable pub change_each : Bool → List DbObject → R → Cache → R × Cache × Bool
  change_each shared [] r c = (r, c, true)
  change_each shared (obj ∷ rest) r c =
      let changed = action obj r c in
      let kept = share shared obj.db_key changed.object changed.cache in
      let (stored, updated) = update_object sql now changed.object false kept in
      let others = change_each shared rest changed.state stored in
      if not changed.done
      then (changed.state, kept, false)
      else if not updated
      then (changed.state, stored, false)
      else others

  -- ISqlDBCache::changeObjects
  unfoldable pub change_objects : DbObject → R → Cache → R × Cache × Bool
  change_objects template r c =
      let (c', result) = get_all_objects sql template c in
      elim result [
        | none ↦ (r, c', false)
        | some [] ↦ (r, c', false)
        | some (obj ∷ rest) ↦ change_each (is_shared template c) (obj ∷ rest) r c'
      ]
