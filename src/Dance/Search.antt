-- ===== src/Dance/Search.antt =====
-- What the search of Lab1/sudoku_dancing_links.cpp does to the matrix that the links stand for.
pub mod Members
pub mod Skip
pub mod Ring
pub mod Linked
pub mod Full
pub mod Cover
pub mod Choose
pub mod Least
pub mod Choice
pub mod Exact
pub mod Digits
pub mod Middle
pub mod Exchange
pub mod Step
pub mod Solves
