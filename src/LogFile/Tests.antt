-- ===== src/LogFile/Tests.antt =====
-- The theorems on a line of four bytes.
use conex.Prelude.{◌≡◌, some, List, [], ◌∷◌, ◌++◌, map, arith, length, Bytes}
use conex.LogFile.{LogFile, file_append, make_log_file, close}
use conex.LogFile.Append.{file_append_lem}
use conex.LogFile.Flushed.{
  Written, Logged, append_lines, put_down, AreWhole, lines_of, joined, append_lines_lem,
}

abbrev line : Bytes
line = 1 ∷ 2 ∷ 3 ∷ 4 ∷ []

-- One byte, then one more, then the last two: the file gets 1, 2, 2, 3.
file_append_here : file_append 1 (1 ∷ 2 ∷ []) line [] ≡ 1 ∷ 2 ∷ 2 ∷ 3 ∷ []
file_append_here = file_append_lem 1 (1 ∷ 2 ∷ []) line [] (omega arith) (omega arith)

-- A line that is taken at once, one in two writes and one in three.
abbrev written : List Written
written =
    record { line = line; first = 4; later = [] }
    ∷ record { line = line; first = 1; later = 3 ∷ [] }
    ∷ record { line = line; first = 1; later = 1 ∷ 2 ∷ [] }
    ∷ []

append_lines_lem_example :
    (f : LogFile) × (make_log_file 2 (some (9 ∷ [])) ≡ some f)
    × Logged 2 (9 ∷ []) (map put_down written) (append_lines written f)
    × ((close (append_lines written f)).flushed
        ≡ length ((9 ∷ []) ++ joined (map put_down written)))
    × (AreWhole written → (append_lines written f).file ≡ (9 ∷ []) ++ joined (lines_of written))
append_lines_lem_example = append_lines_lem 2 (9 ∷ []) written (omega arith) (omega arith)
