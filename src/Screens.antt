-- ===== src/Screens.antt =====
-- What the screens of the app compute (apps/mobile/src/screens); their views are not modelled.
pub mod Composer
pub mod Contacts
pub mod Format
pub mod Group
pub mod Laws
