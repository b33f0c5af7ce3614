-- ===== src/Cache/Direct.antt =====
-- Heart/DataBaseSpace/sqldb.cpp: SqlDB, which a database node takes where it is given no cache.
--
-- It is an ISqlDBCache whose four operations on the cache do nothing. Without HEART_DB_CACHE no object
-- is cached, so that Cache with an empty table has the same operations.
use qt_network_protocol.Prelude.{◌≡◌, List, [], Bool, false, arith, lookup, remove, nat_eq}
use qt_network_protocol.Database.Object.{DbObject}
use qt_network_protocol.Cache.{
  Cache, delete_from_cache, insert_to_cache, update_cache, get_from_cache,
}

-- SqlDB::deleteFromCache
unfoldable pub delete_from_sql_db : DbObject → Cache → Cache
delete_from_sql_db obj c = c

-- SqlDB::insertToCache
unfoldable pub insert_to_sql_db : DbObject → Cache → Cache × Bool
insert_to_sql_db obj c = (c, false)

-- SqlDB::updateCache
unfoldable pub update_sql_db : DbObject → Cache → Cache × Bool
update_sql_db obj c = (c, false)

-- SqlDB::getFromCache
unfoldable pub get_from_sql_db : DbObject → Cache → List DbObject
get_from_sql_db obj c = []

-- On an empty table, and for an object that is not cached, the operations of SqlDBCache are those of
-- SqlDB.
pub sql_db-empty :
    (obj : DbObject) (c : Cache)
    → obj.is_cached ≡ false
    → c.cache ≡ []
    → (insert_to_cache obj c ≡ insert_to_sql_db obj c)
      × (update_cache obj c ≡ update_sql_db obj c)
      × (get_from_cache obj c ≡ get_from_sql_db obj c)
      × ((delete_from_cache obj c).cache ≡ (delete_from_sql_db obj c).cache)
unfolding insert_to_cache update_cache get_from_cache delete_from_cache insert_to_sql_db
    update_sql_db get_from_sql_db delete_from_sql_db lookup remove
sql_db-empty obj c plain empty = ground (arith, plain, empty)
