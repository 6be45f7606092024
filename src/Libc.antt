-- ===== src/Libc.antt =====
-- What the program uses of C's standard library: character classes, decimal output and input,
-- the templates of `printf` and `sscanf`, the network byte order.
pub mod Print
pub mod Scan
pub mod Network
