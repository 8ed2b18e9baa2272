-- ===== src/Fmt.antt =====
-- What the program uses of Go's package `fmt`: `Fprintf` with `%d` and `%s`, `Fscanf`, `Fscanln`.
-- A text is a list of code points, and reading a text is a computation on the input that is left.
-- `Space` and `Number` have the tokens, `Format` has the formats, and the other modules prove that
-- what was printed is read back.
pub mod Space
pub mod Number
pub mod Format
pub mod NumberBack
pub mod FormatBack
pub mod Consumed
pub mod Word
