-- ===== src/LogStream/Tests.antt =====
-- The theorems on a small stream.
use conex.Prelude.{◌≡◌, true, none, some, List, [], ◌∷◌, ◌++◌, arith, replicate, codes, negsuc}
use conex.FixedBuffer.{FixedBuffer, start}
use conex.FixedBuffer.Fill.{Filled}
use conex.Decimal.{decimal}
use conex.LogStream.{Item, convert, put_all, boolean, c_string, string, integer}
use conex.LogStream.Convert.{convert_lem}
use conex.LogStream.Items.{accepted, put_all_lem}

abbrev stream : FixedBuffer
stream = start (replicate 50 0)

abbrev operands : List Item
operands = string (codes "id=") ∷ integer (negsuc 106) ∷ c_string none ∷ boolean true ∷ []

convert_lem_example : convert (negsuc 106) ≡ some (codes "-107")
unfolding decimal
convert_lem_example = convert_lem (negsuc 106)

put_all_lem_example :
    Filled stream (accepted 50 (operands ++ operands)) (put_all (operands ++ operands) stream)
put_all_lem_example = put_all_lem (operands ++ operands) (omega arith) (omega arith)
