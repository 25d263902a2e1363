-- ===== src/Mime/Tests.antt =====
-- The theorems on a small table, and a test with a comment and an empty line.
use conex.Prelude.{◌≡◌, refl, none, some, List, [], ◌∷◌, arith, codes, bytes_eq}
use conex.Mime.{
  construct_path, get_extent, file_lines, cons_word, split_words, words, search_lines,
  get_content_type,
}
use conex.Mime.Extent.{get_extent_lem}
use conex.Mime.Table.{Row, table_text, content_type_of, AreRows, get_content_type_lem}

extent_of_name :
    (get_extent (codes "/a.b/c.html") ≡ codes "html") × (get_extent (codes "html") ≡ codes "html")
extent_of_name = get_extent_lem (codes "/a.b/c") (codes "html") (omega arith)

abbrev table : List Row
table =
    (record { content_type = codes "text/html"; extensions = codes "html" ∷ codes "htm" ∷ [] })
    ∷ (record { content_type = codes "image/png"; extensions = codes "png" ∷ [] })
    ∷ []

table-AreRows : AreRows table
table-AreRows = ground arith

get_content_type_lem_example :
    (get_content_type (some (table_text table)) (codes "png") ≡ content_type_of (codes "png") table)
    × (get_content_type none (codes "png") ≡ codes "text/plain")
get_content_type_lem_example = get_content_type_lem table (codes "png") table-AreRows

commented :
    get_content_type (some (codes "# a png\n\nimage/png \tpng x\n")) (codes "png")
    ≡ codes "image/png"
unfolding get_content_type search_lines file_lines words split_words cons_word bytes_eq
commented = refl

root_path : construct_path (codes "/srv") (codes "/") ≡ codes "/srv/index.html"
unfolding construct_path bytes_eq
root_path = refl
