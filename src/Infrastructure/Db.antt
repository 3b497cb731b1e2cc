-- ===== src/Infrastructure/Db.antt =====
-- The tables that the core works on (src/infrastructure/db/models.py) and the SQLAlchemy session
-- (src/infrastructure/db/session.py). A session holds the state of its transaction and the last
-- committed state; closing it drops what was not committed. An action that raises leaves what it
-- has written in the transaction.
mod Monad
pub mod Keeps
pub mod Atomic
unfoldable pub use Monad.*
