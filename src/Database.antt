-- ===== src/Database.antt =====
-- Heart/DataBaseSpace: the objects of the database and who may do what to them.
--   Object      dbaddress.*, packages/dbobject.*, permisiondata.* and the permission objects
--   Token       accesstoken.*
--   Permission  databasenode.cpp: checkPermission, addUpdatePermission, removePermission
--   Operation   databasenode.cpp: the operations on objects that ask for a permission first
--   Member      databasenode.cpp: changeTrust of an address, and sendData to a member
pub mod Token
pub mod Object
pub mod Permission
pub mod Operation
pub mod Checked
pub mod Reported
pub mod Member
