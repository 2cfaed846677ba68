-- ===== src/Tests.antt =====
-- Concrete inputs on which the theorems apply, by the part of the program they are about.
pub mod Samples
pub mod Codecs
pub mod Schemes
pub mod Enclaves
pub mod Users
pub mod Mailboxes
pub mod Network
pub mod Printed
pub mod Boot
pub mod Wire
pub mod Traffic
