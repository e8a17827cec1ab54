-- ===== src/Rental/Keeps.antt =====
-- The entry points of the main contract keep the books: payments, repairs and late fees in the child
-- Paid, creation in Created, deposits and
-- terminations in Ended, slashes in Slashed, settings in Settings.
mod Paid
mod Created
mod Ended
mod Slashed
mod Settings
pub use Paid.*
pub use Created.*
pub use Ended.*
pub use Slashed.*
pub use Settings.*
