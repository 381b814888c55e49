-- ===== src/HttpServer.antt =====
-- Lab2/httpserverMy.cc: the web server.
pub mod Ring
pub mod Pool
pub mod Messages
pub mod Dealer
pub mod Client
