-- ===== src/Refs.antt =====
-- Branch refs: `RefManager` of core/services/refs.py, over the ref files and commit objects of
-- `LocalObjectStore` (core/objects/local.py) and the client files of `LocalClientState`
-- (core/client_state.py).
-- A ref file holds a commit id or nothing; a commit object is given by what `read_commit` decodes
-- it to, `none` for one that does not parse. Commit ids have no white space at their ends, so what
-- a ref file holds is read back as it was written.
pub mod Store
pub mod Manager
pub mod Cas
pub mod FastForward
pub mod Clients
