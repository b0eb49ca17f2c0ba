-- ===== src/Mailbox.antt =====
-- internal/mailbox: the browse read path, its order, its cursors and its pages.
pub mod Cursor
pub mod Keyset
pub mod Store
pub mod Pages
pub mod Examples
