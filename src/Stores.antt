-- ===== src/Stores.antt =====
-- What the program relies on of Redis and of MySQL: keys that are read and written, and tables. The
-- scripts and statements of the program are functions over these, in the modules of its packages.
pub mod Keyspace
pub mod Database
pub mod Call
