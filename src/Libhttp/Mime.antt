-- ===== src/Libhttp/Mime.antt =====
-- `http_get_mime_type` of libhttp.c.
use cloudcomputing_lab2_http.Prelude.{◌||◌, none, some, if◌then◌else◌, drop}
use cloudcomputing_lab2_http.Cstr.{Bytes, codes, strcmp_eq, strrchr}

mime_of_extension : Bytes → Bytes
mime_of_extension file_extension =
    if strcmp_eq file_extension (codes ".html") || strcmp_eq file_extension (codes ".htm")
    then codes "text/html"
    else if strcmp_eq file_extension (codes ".jpg") || strcmp_eq file_extension (codes ".jpeg")
    then codes "image/jpeg"
    else if strcmp_eq file_extension (codes ".png")
    then codes "image/png"
    else if strcmp_eq file_extension (codes ".css")
    then codes "text/css"
    else if strcmp_eq file_extension (codes ".js")
    then codes "application/javascript"
    else if strcmp_eq file_extension (codes ".pdf")
    then codes "application/pdf"
    else if strcmp_eq file_extension (codes ".json")
    then codes "application/json"
    else codes "text/plain"

-- The extension starts at the last dot of the whole name, a dot in a directory's name too.
unfoldable pub http_get_mime_type : Bytes → Bytes
unfolding mime_of_extension
http_get_mime_type file_name = elim (strrchr file_name b'.') [
  | none ↦ codes "text/plain"
  | some i ↦ mime_of_extension (drop i file_name)
]
