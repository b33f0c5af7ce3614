-- ===== src/Tests/DataTests.antt =====
-- Objects and their packages at concrete inputs.
use qt_network_protocol.Prelude.{◌≡◌, refl, true, false, some, arith}
use qt_network_protocol.Package.{HeaderInRange, is_valid}
use qt_network_protocol.Data.{
  ping, create, cmd, data_is_valid, data_bytes, put_content, to_package, members_valid,
  generate_cmd,
}
use qt_network_protocol.Data.ToPackage.{carrier, to_package-valid}
use qt_network_protocol.Tests.Samples.{qt, laws}

to_package-valid_example :
    (to_package qt (create (ping false)) 5 ≡ some (carrier qt (create (ping false)) 5))
    × (is_valid qt.q_hash (carrier qt (create (ping false)) 5) ≡ true)
    × HeaderInRange (carrier qt (create (ping false)) 5).hdr
unfolding data_is_valid cmd data_bytes put_content members_valid generate_cmd
to_package-valid_example =
    to_package-valid qt laws (create (ping false)) 5 refl (omega arith) (omega arith) (omega arith)
      (omega arith)
