-- ===== src/Dance/Table.antt =====
-- The matrix that the links stand for when the constructor of `Dance` in
-- Lab1/sudoku_dancing_links.cpp is done.
pub mod Insert
pub mod Inverse
pub mod Heads
pub mod Nodes
pub mod Units
pub mod Fours
pub mod Join
pub mod Whole
pub mod Done
pub mod Mates
pub mod Ready
pub mod Search
