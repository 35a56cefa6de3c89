-- ===== src/Foreign.antt =====
-- Code that is not part of the repository: the values that the program only stores, compares and
-- passes on, and the records of operations through which it calls other crates and servers.
-- A value such as a transaction id, a script, a key or an address is the number that its
-- consensus encoding spells, so that the order of 32-byte ids is the order of numbers and the
-- default id, whose bytes are all zero, is 0.
pub mod Bitcoin
pub mod Wallet
