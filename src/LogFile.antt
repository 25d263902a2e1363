-- ===== src/LogFile.antt =====
-- LogFile.h and LogFile.cc. What `fwrite_unlocked` takes of each write is an argument, a list of
-- counts; the log file is the bytes it took, in order, and `flushed` of them are past a flush.
pub mod Append
pub mod Flushed
mod Tests
use conex.Prelude.{
  ℕ, ◌+◌, ◌-◌, Option, some, List, [], ◌∷◌, ◌++◌, ltb, leb, ◌==◌, if◌then◌else◌, ◌>>=◌, ◌>>◌,
  length, take, drop, Bytes,
}

-- The loop of `FileUtil::append`: every write starts at `logline + n`. A write past the end of the
-- list takes nothing, which ends the loop.
unfoldable pub write_rest : List ℕ → Bytes → ℕ → Bytes → Bytes
write_rest [] from remain file = file
write_rest (tmp ∷ answers) from remain file =
    let rest = write_rest answers from (remain - tmp) (file ++ take tmp from) in
    if ltb 0 remain then (if tmp == 0 then file else rest) else file

-- `FileUtil::append`, when the first write takes `n` bytes and later ones what the list says.
unfoldable pub file_append : ℕ → List ℕ → Bytes → Bytes → Bytes
file_append n answers line file =
    write_rest answers (drop n line) (length line - n) (file ++ take n line)

pub record LogFile : Type 0 where
  pub flush_every : ℕ
  pub count : ℕ
  pub file : Bytes
  pub flushed : ℕ

-- The constructor opens the file to append to it: what the file holds, if `fopen` opens it. It does
-- not test the pointer, which `setbuffer` must not be given when it is null.
unfoldable pub make_log_file : ℕ → Option Bytes → Option LogFile
make_log_file n opened = do
  file ← opened
  some (record { flush_every = n; count = 0; file = file; flushed = length file })

-- `flush`: all that has been written is flushed.
unfoldable pub flush : LogFile → LogFile
flush f = record f { flushed = length f.file }

-- `append` and `append_unlocked`.
unfoldable pub append_unlocked : ℕ → List ℕ → Bytes → LogFile → LogFile
append_unlocked n answers line f =
    let f' = record f { file = file_append n answers line f.file } in
    if leb f'.flush_every (f'.count + 1)
    then flush (record f' { count = 0 })
    else record f' { count = f'.count + 1 }

-- The destructor has `fclose` flush what is left.
unfoldable pub close : LogFile → LogFile
close f = record f { flushed = length f.file }
