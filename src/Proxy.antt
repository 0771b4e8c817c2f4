-- ===== src/Proxy.antt =====
-- crates/vsock-parent-proxy/src/main.rs: the paths that the proxy asks the enclave for.
pub mod Paths
pub mod Forward
pub mod Accounts
pub mod Tally
pub mod EndToEnd
pub mod Lookup
mod Runs
use pzd.Base.Text.{decimal}
use pzd.Base.{ℕ, ◌++◌, Bytes, codes}

-- `forward_path` and `forward_consistency`, whose number is a u64.
unfoldable pub proof_route : ℕ → Bytes
proof_route idx = codes "/v1/ledger/proof/" ++ decimal idx

unfoldable pub consistency_route : ℕ → Bytes
consistency_route from_size = codes "/v1/ledger/consistency/" ++ decimal from_size
