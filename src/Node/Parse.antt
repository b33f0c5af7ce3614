-- ===== src/Node/Parse.antt =====
-- abstractnode.cpp: prepareData, parsePackage and the job of newWork.
use qt_network_protocol.Prelude.{
  ℕ, [], ◌∷◌, ◌++◌, Bool, true, false, not, Option, none, some, if◌then◌else◌, lookup, Dict, ◌==◌,
  nat_eq,
}
use qt_network_protocol.HostAddress.{HostAddress, host_address_eq}
use qt_network_protocol.NodeInfo.{NodeInfo, update_confirm_status}
use qt_network_protocol.Package.{Package, Header}
use qt_network_protocol.Qt.{Qt, Network}
use qt_network_protocol.Data.{
  Data, Content, ping, bad_request, close_connection, create, cmd, data_is_valid, from_package,
}
use qt_network_protocol.Node.State.{Node, change_trust, update_info, critical_erroor, request_error}
use qt_network_protocol.Node.Send.{send_data}
use qt_network_protocol.Node.Remove.{remove_node}

-- enum class ParserResult
pub data ParserResult : Type 0 where
  error not_processed processed : ParserResult

-- _registeredTypes: for each command, the object that the factory makes.
abbrev pub Registry : Type 0
Registry = Dict ℕ Content

module _ (qt : Qt) (net : Network) where
  -- The types that the constructor of AbstractNode registers.
  unfoldable pub base_types : Registry
  base_types =
      (qt.h16_ping, ping false)
      ∷ (qt.h16_bad_request, bad_request 0 [])
      ∷ (qt.h16_close_connection, close_connection)
      ∷ []

  -- AbstractNode::prepareData
  unfoldable pub prepare_data : Registry → Package → Option Data
  prepare_data types pkg = elim (lookup pkg.hdr.command types) [
    | none ↦ none
    | some fresh ↦ some (from_package qt pkg (create fresh))
  ]

  -- The branch that the command number selects. Where the object is not of the class that its
  -- command stands for, the source's static_cast is undefined; the model leaves the node alone.
  unfoldable pub parse_command : Data → Header → NodeInfo → Node → Node × ParserResult
  parse_command pkg hdr sender n =
      if qt.h16_ping == cmd qt pkg
      then elim pkg.content [
        | ping false ↦ (
          (send_data qt net (record pkg { content = ping true }) sender.network_address (some hdr)
              n).0,
          processed,
        )
        | _ ↦ (n, processed)
      ]
      else if qt.h16_bad_request == cmd qt pkg
      then elim pkg.content [
        | bad_request code err ↦
            (record n { request_errors = n.request_errors ++ ((code, err) ∷ []) }, processed)
        | _ ↦ (n, processed)
      ]
      else if qt.h16_close_connection == cmd qt pkg
      then (
        (if sender.is_local then (remove_node qt net sender.network_address n).0 else n),
        processed,
      )
      else (n, not_processed)

  -- AbstractNode::parsePackage; the sender is what the node knew of the peer when the call began.
  unfoldable pub parse_package : Data → Header → Option NodeInfo → Node → Node × ParserResult
  parse_package pkg hdr none n = (n, error)
  parse_package pkg hdr (some sender) n =
      if not (data_is_valid qt pkg)
      then ((change_trust sender.network_address critical_erroor n).0, error)
      else parse_command pkg hdr sender n

  -- The job of AbstractNode::newWork, for the virtual `parsePackage` of the node's class. `id` is the
  -- key of the sender.
  unfoldable pub execute_object :
      Registry
      → (Data → Header → Option NodeInfo → Node → Node × ParserResult)
      → Package
      → HostAddress
      → Node
      → Node × Bool
  execute_object types parse pkg id n = elim (prepare_data types pkg) [
    | none ↦ (n, false)
    | some d ↦
        let (n', result) = parse d pkg.hdr (lookup id n.connections) n in
        elim result [
          | error ↦ (n', false)
          | not_processed ↦ ((change_trust id request_error n').0, false)
          | processed ↦ (update_info id update_confirm_status n', true)
        ]
  ]
