-- ===== src/HttpRequest/Tests.antt =====
-- Runs of the setters of a request, and the theorems about them at concrete inputs.
use conex.Prelude.{◌≡◌, refl, true, false, some, ◌∷◌, ◌++◌, if◌then◌else◌, codes, bytes_eq}
use conex.HttpRequest.{
  empty_request, method_of, set_method, skip_spaces, trim_end, add_header, get_header, post,
}
use conex.HttpRequest.Laws.{add_header_lem}

reads_post :
    set_method (codes "POST") empty_request ≡ some (true, record empty_request { method = post })
unfolding set_method method_of bytes_eq
reads_post = refl

refuses_patch : set_method (codes "PATCH") empty_request ≡ some (false, empty_request)
unfolding set_method method_of bytes_eq
refuses_patch = refl

trims : trim_end (skip_spaces (codes " \ta b  ")) ≡ codes "a b"
unfolding trim_end skip_spaces
trims = refl

add_header_here :
    let q = add_header (codes "Host" ++ b':' ∷ codes " a ") 4 empty_request in
    (get_header (codes "Host") q ≡ (
      if bytes_eq (codes "Host") (codes "Host")
      then trim_end (skip_spaces (codes " a "))
      else get_header (codes "Host") empty_request))
    × (q ≡ record empty_request { headers = q.headers })
add_header_here = add_header_lem (codes "Host") (codes " a ") (codes "Host") empty_request
