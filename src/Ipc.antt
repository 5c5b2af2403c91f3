-- ===== src/Ipc.antt =====
-- The owner's side of the local IPC: the table of retained requests
-- (src/webwire/authority_ipc_request_table.py), and the frames (src/webwire/authority_ipc_framing.py).
pub mod RequestTable
pub mod Framing
mod Examples
