-- ===== src/Http/Server/Framing.antt =====
-- The text of the responses.
use operating_systems_and_sy.Prelude.{
  ℕ, ◌≡◌, refl, ap, true, false, none, some, [], ◌∷◌, ◌++◌, ◌==◌, length, append_assoc,
}
use operating_systems_and_sy.CLib.{Text, codes}
use operating_systems_and_sy.CLib.Decimal.{decimal}
use operating_systems_and_sy.Http.Parse.{peek}
use operating_systems_and_sy.Http.Send.{
  http_start_response, http_send_header, http_end_headers, http_get_mime_type, take,
  http_get_response_message, crlf,
}
use operating_systems_and_sy.Http.Server.{other, Files, strstr, text_html}

-- A response as the client reads it: the status line, the headers, an empty line and the body.
abbrev pub response : Text → Text → Text → Text
response status headers body = status ++ (crlf ++ (headers ++ (crlf ++ body)))

abbrev pub file_headers : Text → Text → Text
file_headers name body =
    codes "Content-Type: "
    ++ (http_get_mime_type name
        ++ (crlf ++ (codes "Content-Length: " ++ (decimal (length body) ++ crlf))))

-- The page that goes with an error, by the name of the error.
abbrev pub refusal : Text → Text
refusal name =
    response (codes "HTTP/1.0 " ++ name) (codes "Content-Type: text/html" ++ crlf)
      (codes "<center><h1>" ++ (name ++ codes "</h1><hr></center>"))

-- The reasons for which a path is refused, each with the name of its error.
pub data IsRefused (fs : Files) (p : Text) : Text → Type 0 where
  relative : (peek p == b'/') ≡ false → IsRefused fs p (codes "400 Bad Request")
  climbs :
      (peek p == b'/') ≡ true
      → strstr p (codes "..") ≡ true
      → IsRefused fs p (codes "403 Forbidden")
  missing :
      (peek p == b'/') ≡ true
      → strstr p (codes "..") ≡ false
      → fs.stat (codes "./" ++ p) ≡ none
      → IsRefused fs p (codes "404 Not Found")
  special :
      (peek p == b'/') ≡ true
      → strstr p (codes "..") ≡ false
      → fs.stat (codes "./" ++ p) ≡ some other
      → IsRefused fs p (codes "404 Not Found")

abbrev pub error_text : ℕ → Text → Text
error_text code page = (http_start_response code ++ (text_html ++ http_end_headers)) ++ page

pub refusal_400 :
    error_text 400 (codes "<center><h1>400 Bad Request</h1><hr></center>")
    ≡ refusal (codes "400 Bad Request")
unfolding http_start_response http_get_response_message http_send_header http_end_headers decimal
refusal_400 = refl

pub refusal_403 :
    error_text 403 (codes "<center><h1>403 Forbidden</h1><hr></center>")
    ≡ refusal (codes "403 Forbidden")
unfolding http_start_response http_get_response_message http_send_header http_end_headers decimal
refusal_403 = refl

pub refusal_404 :
    error_text 404 (codes "<center><h1>404 Not Found</h1><hr></center>")
    ≡ refusal (codes "404 Not Found")
unfolding http_start_response http_get_response_message http_send_header http_end_headers decimal
refusal_404 = refl

pub take_whole : (s : Text) → take (length s) s ≡ s
unfolding take
take_whole [] = refl
take_whole (c ∷ s) = ap (λ t. c ∷ t) (take_whole s)

pub ok_line : http_start_response 200 ≡ codes "HTTP/1.0 200 OK" ++ crlf
unfolding http_start_response http_get_response_message decimal
ok_line = refl

pub file_framing :
    (mime size body : Text)
    → (http_start_response 200
          ++ (http_send_header (codes "Content-Type") mime
              ++ (http_send_header (codes "Content-Length") size ++ http_end_headers)))
        ++ body
      ≡ response
          (codes "HTTP/1.0 200 OK")
          (codes "Content-Type: "
            ++ (mime ++ (crlf ++ (codes "Content-Length: " ++ (size ++ crlf)))))
          body
unfolding http_send_header http_end_headers
file_framing mime size body = rw ok_line (simp append_assoc)
