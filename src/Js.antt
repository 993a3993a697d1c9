-- ===== src/Js.antt =====
-- What the program uses of JavaScript's own library: arrays, texts, numbers and
-- regular expressions.
pub mod Array
pub mod Text
pub mod Number
pub mod Regex
