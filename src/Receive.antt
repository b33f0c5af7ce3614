-- ===== src/Receive.antt =====
-- Heart/AbstractSpace/abstractnode.cpp, AbstractNode::avelableBytes, with Private/receivedata.h:
-- how the bytes that a socket delivers are cut into packages.
--
-- The loop runs over one array: what was kept of an unfinished header, then what the socket had
-- ready. `collect` is its three cases, `deliver` the two tests that follow them. The loop has fuel;
-- `none` says that the fuel ran out. A package that is passed to `newWork` is put on the output.
pub mod Whole
pub mod Split
pub mod Stuck
pub mod Bounds
use qt_network_protocol.Prelude.{
  ℕ, zero, suc, ◌+◌, ◌-◌, List, [], ◌∷◌, ◌++◌, Bool, true, false, Option, none, some, length, mid,
  leb, ltb, min, if◌then◌else◌,
}
use qt_network_protocol.Package.{
  Package, Header, reset, header_size, header_is_valid, header_of_bytes, is_valid,
}

-- struct ReceiveData; `pkg` and `hdr_array` are its `_pkg` and `_hdrArray`.
pub record ReceiveData : Type 0 where
  pub pkg : Package
  pub hdr_array : List ℕ

abbrev pub no_data : ReceiveData
no_data = record { pkg = reset; hdr_array = [] }

-- CASE 1 to CASE 3: the new work index and the new data. The first length is a difference of ints
-- in the source; it is not negative while the data is no longer than the header states.
unfoldable pub collect : List ℕ → ℕ → ReceiveData → ℕ × ReceiveData
collect array work_index r =
    if header_is_valid r.pkg.hdr
    then (let data_length = min (r.pkg.hdr.size - length r.pkg.bytes) (length array - work_index) in
        (
          work_index + data_length,
          record r {
            pkg = record {
              hdr = r.pkg.hdr;
              bytes = r.pkg.bytes ++ mid array (work_index + header_size) data_length;
            };
          },
        ))
    else if leb header_size (length array - work_index)
    then (let hdr = header_of_bytes (mid array work_index header_size) in
        let data_length = min hdr.size (length array - header_size - work_index) in
        (
          work_index + (header_size + data_length),
          record r {
            pkg = record { hdr = hdr; bytes = mid array (work_index + header_size) data_length };
          },
        ))
    else (let data_length = length array - work_index in
        (
          work_index + data_length,
          record r { hdr_array = r.hdr_array ++ mid array work_index data_length },
        ))

module _ (q_hash : List ℕ → ℕ) where
  -- The package that is passed to `newWork`, if there is one, and the data that is kept.
  unfoldable pub deliver : ReceiveData → ReceiveData × List Package
  deliver r =
      if is_valid q_hash r.pkg
      then (no_data, r.pkg ∷ [])
      else if ltb r.pkg.hdr.size (length r.pkg.bytes)
      then (no_data, [])
      else (r, [])

  -- One round of the loop's body.
  unfoldable pub round : List ℕ → ℕ → ReceiveData → ℕ × ReceiveData × List Package
  round array work_index r =
      let (next, collected) = collect array work_index r in
      let (kept, out) = deliver collected in (next, kept, out)

  unfoldable pub loop : ℕ → List ℕ → ℕ → ReceiveData → Option (ReceiveData × List Package)
  loop zero array work_index r = none
  loop (suc fuel) array work_index r =
      let (next, kept, out) = round array work_index r in
      let rest = loop fuel array next kept in
      if ltb work_index (length array)
      then elim rest [ none ↦ none | some (last, outs) ↦ some (last, out ++ outs) ]
      else some (r, [])

  -- The part of AbstractNode::avelableBytes behind its guards. `socket` is none where the node has
  -- no socket any more, and otherwise what its `readAll` returns.
  unfoldable pub avelable_bytes :
      ℕ → Option (List ℕ) → ReceiveData → Option (ReceiveData × List Package)
  avelable_bytes fuel none r = some (no_data, [])
  avelable_bytes fuel (some ready) r =
      loop fuel (r.hdr_array ++ ready) 0 (record { pkg = r.pkg; hdr_array = [] })
