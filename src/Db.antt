-- ===== src/Db.antt =====
-- The SQLite tables that the store's parts share (src/proactive_mcp/store/migrations/*.sql), as
-- one value. Rows are never deleted from `situations`; a new row gets the id after the last one.
mod Tables
mod Monad
mod Rows
mod Leases
mod Fallbacks
pub use Tables.*
pub use Monad.{
  Outcome, returned, raised, Session, followed_by, after_cleanup, ◌>>◌, through, through_query,
  bind-returned, bind_fixes, transaction_commits, raise-returned, transaction-returned,
  transaction_keeps,
}
unfoldable pub use Monad.{finally, pure, raise, query, execute, transaction, ◌>>=◌}
pub use Fallbacks.{
  IsShaped, open_claim, was_sent, has_failed, Settles, kept, settled, FallbacksEvolve, NotifiedOnce,
  FallbackHistory, FallbackHistory-refl, FallbackHistory-trans, FallbackHistory-append,
}
pub use Leases.{exists_where-append, LeasedOnce, LeasedOnce-append, LeasedOnce-select}
pub use Rows.{find_id-id, update_id-found, update_id-ne, update_id-none}
unfoldable pub use Rows.{find_id, update_id, update_where}
