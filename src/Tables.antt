-- ===== src/Tables.antt =====
-- The database of src/queuer/db.py: a record for a row of each table, the connection with its
-- open transaction, the exceptions, and the queries that the other parts share.
mod Rows
mod Connection
mod Queries
mod Laws
mod Transaction
unfoldable pub use Rows.*
unfoldable pub use Connection.*
unfoldable pub use Queries.*
pub use Laws.*
pub use Transaction.*
