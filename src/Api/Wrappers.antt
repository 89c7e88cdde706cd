-- ===== src/Api/Wrappers.antt =====
-- The functions on files and streams in systemrdl_api.cpp, `file::` and `stream::`, which read all
-- of their input and call a function on texts. What reading gives is an argument; a function on
-- texts is an argument too, since the four of a kind differ in nothing else.
use systemrdl_toolkit.Base.{Bool, true, false, ◌++◌, Bytes, codes, Option, none, some}
use systemrdl_toolkit.Api.{Result, success, error}

-- what is read to the end of a file or stream: its bytes, or the text of an exception
pub data Reading : Type 0 where
  read failed : Bytes → Reading

-- `file::parse`, `file::elaborate`, `file::elaborate_simplified` and `file::csv_to_rdl`; there is
-- nothing to read where the file is not open
unfoldable pub on_file : (Bytes → Option Result) → Bytes → Option Reading → Option Result
on_file call filename none = some (error (codes "Cannot open file: " ++ filename))
on_file call filename (some (read content)) = call content
on_file call filename (some (failed what)) = some (error (codes "File read error: " ++ what))

-- what a function on streams writes, and what it returns
abbrev pub written : Result → Bytes × Bool
written (success value) = (value, true)
written (error message) = (codes "Error: " ++ message, false)

-- `stream::parse`, `stream::elaborate`, `stream::elaborate_simplified` and `stream::csv_to_rdl`
unfoldable pub on_stream : (Bytes → Option Result) → Reading → Option (Bytes × Bool)
on_stream call (read content) = elim (call content) [
  | none ↦ none
  | some result ↦ some (written result)
]
on_stream call (failed what) = some (codes "Stream error: " ++ what, false)
