-- ===== src/Postgres/Laws.antt =====
-- Rules of reasoning about statements and transactions, whatever the environment does.
mod Triples
mod Facts
mod Transactions
mod Inversion
pub use Triples.*
pub use Facts.*
pub use Transactions.*
pub use Inversion.*
