-- ===== src/Model.antt =====
-- internal/model: the domain types that the server's parts share.
pub mod Text
pub mod Kind
pub mod Status
pub mod Phase
pub mod Types
pub mod ExtraArgs
pub mod SystemDatabase
