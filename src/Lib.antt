-- ===== src/Lib.antt =====
-- A verification library for QtNetworkProtocol (Heart).
--
-- Heart is a framework of network nodes in three levels: AbstractSpace (peers, packages, sending,
-- parsing), DataBaseSpace (a node that serves a database), NetworkSpace (a node of a network).
--
-- Files and the code that they model (paths from the repository's root):
--   Package        Heart/AbstractSpace/header.*, package.*: the 12-byte header, the package, its
--                  validity and its byte form
--   Receive        Heart/AbstractSpace/abstractnode.cpp, avelableBytes, and Private/receivedata.h:
--                  the loop that cuts what a socket delivers into packages
--   HostAddress    Heart/AbstractSpace/hostaddress.*
--   NodeInfo       Heart/AbstractSpace/abstractnodeinfo.*: what a node knows of one peer
--   Data           Heart/AbstractSpace/packages/*, streambase.*: the objects inside packages
--   Node           Heart/AbstractSpace/abstractnode.*, workstate.*: a node, with its peers
--     State        the members, bans, trust, counts and lists, the work state
--     Send         sendPackage, sendData, badRequest, ping
--     Register     registerSocket, incomingTcp
--     Remove       removeNode and the two timers
--     Parse        prepareData, parsePackage and the job of newWork
--   Database       Heart/DataBaseSpace: objects of the database and permissions
--     Object       dbaddress.*, permisiondata.*, packages/dbobject.* and the permission objects
--     Permission   databasenode.cpp: checkPermission, addUpdatePermission, removePermission
--     Operation    databasenode.cpp: the operations on objects for a requester
--     Member       databasenode.cpp: changeTrust of an address, sendData to a member
--   Cache          Heart/DataBaseSpace/isqldbcache.*, sqldbcache.*: the write-behind cache
--     Change       changeObjects
--     Direct       sqldb.cpp, the cache of a node that is given none
--   Sql            Heart/DataBaseSpace/packages/dbobject.cpp: the text of the queries
--     Columns, Injected   the columns they name, and the values inside quotes
--     Script       sqldbwriter.cpp: exec of a file of statements
--     Writer       sqldbwriter.cpp: workWithQuery and the queries
--     Open         sqldbwriter.cpp: initDbPrivate and initDb; sqlitedbcache.cpp: initDb
--     Requests     getsinglevalue, setsinglevalue, getmaxintegerid, dbobjectset, customdbrequest
--   WebSocket      Heart/DataBaseSpace/websocketcontroller.*: who is subscribed to what
--     Node         the database node as the host that the controller asks and sends through
--     Subscribe    databasenode.cpp: parsePackage and workWithSubscribe
--   SingleServer   Heart/DataBaseSpace/singleserver.cpp, accesstoken.*: users and their sessions
--     Dispatch     parsePackage and workWithUserRequest
--   SingleClient   Heart/DataBaseSpace/singleclient.*: the client of a single server
--     Request      its requests and their answers
--     Event        its calls, the reports of the network and the timers, in any order
--     Status, Logined, Late   the status over such sequences
--   Router         Heart/NetworkSpace/router.*: routes and processed packages
--   KeyStorage     Heart/AbstractSpace/keystorage.*, cryptopairkeys.*: the pool of key pairs
--     Generate, Tasks   what the thread has done when it ends
--     Lost         pairs that are taken away, keys that are not saved
--     Disk         the directory of the keys: toStorage, fromStorage and initStorageLocation
--   Transport      Heart/NetworkSpace/packages/transportdata.*: a package with a route to a node
--   NetworkNode    Heart/NetworkSpace/networknode.cpp, networknodeinfo.*: sending to a node by its id
--     Work         workWithTransportData
--     Known        nodeConfirmend and nodeDisconnected
--     Objects      workWithNodeObjectData, welcomeAddress and what a node sends of its own
--   PackageManager Heart/AbstractSpace/packagemanager.*: the archive of processed packages
--   Packages       the package classes of the three levels, streambase.cpp and the values in them
--     Fields, ReadBack   dbaddress, permisiondata, accesstoken, hostaddress, nodeid, cryptopairkeys:
--                  their streams
--     Classes, Write, Read, RoundTrip   the members of the classes, toStream and fromStream
--     Send         isValid, toPackage and fromPakcage of the classes
--     Clone        copyFrom, createDBObject, init and cloneRaw
--     Rows, Permisions   variantMap, fromSqlRecord and condition of the members and permissions
--     ObjectsRequest   packages/dbobjectsrequest.h
--   Async          Heart/AbstractSpace/async.*: jobs on the thread of their object
--   CacheKey       Heart/DataBaseSpace/dbcachekey.*: the table of hashed keys
--   Stream         QDataStream, as parameters, with its documented laws
--   Qt             what the code takes from Qt, as parameters, with its documented laws
--   Prelude        helpers: lists, maps as association lists, sets, integers
--   Tests          the theorems at concrete inputs
--
-- A byte is a number below 256, a QByteArray a list of bytes, a QHash an association list, a pointer
-- to a socket the socket's number with what the code asks of it. A member function takes the
-- object's state and returns the new one. Signals are appended to a list in the state.
--
-- Bounds and fuel: the receiving loop has fuel; one round more than there are packages in the array
-- and one for a tail are enough for whole packages (Receive/Whole). The fuel of
-- workWithTransportData counts its calls of itself; one call is enough for a package that is passed
-- on. For the key storage one round, and the size of the pool, are enough. Numbers of fixed width keep
-- their wrap-around written out.
--
-- Not modelled: locks and the events of other threads (each handler runs as one step; Async has the
-- queue of jobs), TLS, the name lookup of hosts, the text forms for logs, and cryptography; of the
-- network node, parsePackage for the packages other than TransportData, and workWithNetworkRequest,
-- which calls a parsePackage that does not exist.
pub mod Prelude
pub mod Package
pub mod Receive
pub mod HostAddress
pub mod NodeInfo
pub mod Qt
pub mod Data
pub mod Node
pub mod Database
pub mod Cache
pub mod WebSocket
pub mod Sql
pub mod CacheKey
pub mod Async
pub mod Stream
pub mod Packages
pub mod SingleServer
pub mod SingleClient
pub mod KeyStorage
pub mod Transport
pub mod Router
pub mod NetworkNode
pub mod PackageManager
pub mod Tests
