-- ===== src/Edit.antt =====
-- tools/editdiff.go: line endings, and the replacement of texts in a file, exact or fuzzy, with runEdit
-- of tools/edit.go. Strings are the lists of their bytes.
pub mod Text
pub mod LineEndings
pub mod Fuzzy
pub mod Apply
pub mod Slices
pub mod Woven
pub mod Replaced
pub mod Tool
pub mod Writing
