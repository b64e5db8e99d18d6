-- ===== src/Http/Servlet/Files.antt =====
-- The content type that a servlet sets for a file.
use tirpc.Http.{HttpResponse}
use tirpc.Http.Servlet.{
  get_content_type, extension_of, set_http_content_type, set_http_content_type_for_file,
}
use tirpc.Prelude.{length, ◌≡◌, refl, ◌∷◌, ◌++◌, Bytes, ok}
use tirpc.StringUtil.Searches.{Without, find_last_of-at, substr_from-at}

-- The extension decides: whatever stands in front of the last dot, even if it has dots, the type is
-- that of the text from that dot on.
pub set_http_content_type_for_file-extension :
    (stem extension : Bytes) (res : HttpResponse)
    → Without 46 extension
    → set_http_content_type_for_file (stem ++ (46 ∷ extension)) res
      ≡ ok (set_http_content_type (get_content_type (46 ∷ extension)) res)
unfolding set_http_content_type_for_file extension_of
set_http_content_type_for_file-extension stem extension res w =
    rw (find_last_of-at 46 stem extension w, set_http_content_type_for_file, extension_of)
      (rw (substr_from-at (stem ++ (46 ∷ extension)) stem (46 ∷ extension) (length stem) refl refl)
        refl)
