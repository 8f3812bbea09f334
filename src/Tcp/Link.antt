-- ===== src/Tcp/Link.antt =====
-- The endpoint that a bridge puts on its net for the other side, as `thread_accept` of
-- src/tcp/listener.rs and `thread` of src/tcp/connector.rs make it.
pub mod Joins
use water_rs.Prelude.{ℕ, suc, ◌+◌, ◌%◌}
use water_rs.RawMessage.{usize_mod}
use water_rs.Store.{update}
use water_rs.Endpoint
use water_rs.Endpoint.{unused_id}
use water_rs.Net.{Net, set_cell, get_neweid, clone_endpoint, add_endpoint}

-- `Endpoint::new(!0u64, eid, net.clone())`, in a cell of its own.
unfoldable pub create_unused : Net → ℕ → Net × ℕ
unfolding Endpoint.new
create_unused net eid = (
  record net {
    cell = update net.cell net.fresh (Endpoint.new unused_id eid net.sid);
    fresh = suc net.fresh;
  },
  net.fresh,
)

-- The endpoint with its identifiers, on the list of the net, and a second handle for the other thread
-- of the bridge.
unfoldable pub link : Net → Net × ℕ
unfolding get_neweid create_unused clone_endpoint add_endpoint Endpoint.setgid
link net =
    let (net1, eid) = get_neweid net in
    let (net2, e) = create_unused net1 eid in
    let (net3, gid) = get_neweid net2 in
    let net4 = set_cell net3 e (Endpoint.setgid (net3.cell e) gid) in
    (clone_endpoint (add_endpoint (clone_endpoint net4 e) e) e, e)
