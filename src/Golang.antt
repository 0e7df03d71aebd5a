-- ===== src/Golang.antt =====
-- What the program uses of Go's standard library: `strings`, `strconv`, `fmt`, `encoding/base64`
-- and `hash/crc32`, on texts as lists of bytes.
pub mod Strings
pub mod Strconv
pub mod Base64
pub mod Crc32
pub mod Utf8
