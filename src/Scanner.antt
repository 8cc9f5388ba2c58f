-- ===== src/Scanner.antt =====
-- bufio.Scanner with its default split into lines and its default buffer, as lib/mp1/multicast/server.go
-- and cmd/mp0/client/root.go use it: the lines of an input, and the error that ends it.
pub mod Frames
use cs425_mps.Base.{ℕ, Option, none, some, List, [], ◌∷◌, ◌++◌, length, ltb, ◌==◌, if◌then◌else◌}
use cs425_mps.Base.Result.{Error, read_failed}
use cs425_mps.Codec.{Bytes}

-- A carriage return at the end of a line is dropped.
unfoldable pub drop_cr : Bytes → Bytes
drop_cr [] = []
drop_cr (c ∷ []) = if c == b'\r' then [] else c ∷ []
drop_cr (c ∷ d ∷ ds) = c ∷ drop_cr (d ∷ ds)

-- The buffer has 64 KiB; a line that leaves no room for its newline is too long.
abbrev pub max_line : ℕ
max_line = 65535

-- `line` is what was read of the line so far.
unfoldable pub scan_loop : Bytes → Bytes → List Bytes × Option Error
scan_loop [] [] = ([], none)
scan_loop (c ∷ line) [] = (drop_cr (c ∷ line) ∷ [], none)
scan_loop line (c ∷ input) =
    let next = scan_loop [] input in
    let longer = scan_loop (line ++ c ∷ []) input in
    if c == b'\n'
    then (drop_cr line ∷ next.0, next.1)
    else if ltb (length line) max_line
    then longer
    else ([], some read_failed)

unfoldable pub scan_lines : Bytes → List Bytes × Option Error
scan_lines input = scan_loop [] input
