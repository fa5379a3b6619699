-- ===== src/Db.antt =====
-- Sources/miniDHT_db.h and Sources/miniDHT_db.cpp: the two SQLite tables of a node.
-- The statements are read as what SQL says of them: a table is the list of its rows, `SELECT` over
-- several tables is their product in the order of the `FROM` clause, filtered. SQL leaves the
-- order of rows open where there is no `ORDER BY`; no theorem depends on it.
-- The texts that are pasted into statements are taken to hold no quote. KeyValue and MultiKey are the
-- statements alone; Handle has the mutex, the opening of the file and what SQLite may answer.
pub mod KeyValue
pub mod MultiKey
pub mod Consistent
pub mod Rows
pub mod Frame
pub mod View
pub mod Oldest
pub mod Handle
