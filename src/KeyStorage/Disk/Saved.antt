-- ===== src/KeyStorage/Disk/Saved.antt =====
-- The keys that a storage finds in a directory to which another one saved its keys.
use qt_network_protocol.Prelude.{nat_eq}
use qt_network_protocol.Stream.{Stream}
use qt_network_protocol.KeyStorage.{KeyStorage}
use qt_network_protocol.KeyStorage.Disk.{text_eq}
