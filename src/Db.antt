-- ===== src/Db.antt =====
-- The key and value database of c_code/apue/mydb/db.c. A database is two files. The index file
-- begins with 138 pointers of seven characters (the free list, then one chain for each hash value)
-- and a newline, and goes on with index records; a record is a pointer to the next one of its
-- chain, its length, and the text `key:offset:length` of a record of the data file.
pub mod State
pub mod Index
pub mod Data
pub mod Search
pub mod Table
pub mod Update
pub mod Query
pub mod Open
pub mod Session
mod Tests
