-- ===== src/Http/Server/Replies.antt =====
-- What the client of `handle_files_request` gets for the bytes that it sent.
use operating_systems_and_sy.Prelude.{
  ℕ, ◌%◌, ◌^◌, ◌-◌, ◌<◌, ◌≡◌, refl, ◌∙◌, ap, Bool, true, false, Option, some, ◌++◌, ◌==◌, length,
  arith, lt→ltb,
}
use operating_systems_and_sy.CLib.{Text, codes}
use operating_systems_and_sy.CLib.Decimal.{decimal}
use operating_systems_and_sy.Http.Parse.{peek}
use operating_systems_and_sy.Http.Parse.Accepted.{IsRequest, parse-written}
use operating_systems_and_sy.Http.Send.{http_start_response, http_end_headers, http_get_mime_type}
use operating_systems_and_sy.Http.Send.Data.{Connected, http_send_data-complete}
use operating_systems_and_sy.Http.Server.{
  Kind, directory, regular, Files, sent, touch, strstr, send_body, serve_file, serve_directory,
  send_error, not_found, serve_path, handle_request, handle_files_request, text_html,
}
use operating_systems_and_sy.Http.Server.Framing.{
  response, file_headers, refusal, IsRefused, relative, climbs, missing, special, refusal_400,
  refusal_403, refusal_404, take_whole, file_framing,
}

module _ (fs : Files) (write : ℕ → Text → Option ℕ) (grant : ℕ → Bool)
    (connected : Connected write) where
  send_body-sent : (headers s : Text) → send_body fs write grant headers s ≡ sent (headers ++ s)
  unfolding send_body
  send_body-sent headers s =
      let (k, e) = http_send_data-complete write connected (length s) 0 s (omega arith) in
      rw (e, send_body) refl

  file-sent :
      (name bytes : Text)
      → fs.contents name ≡ some bytes
      → length bytes < 2 ^ 31 - 1
      → (serve_file fs write grant name).reply
        ≡ sent (response (codes "HTTP/1.0 200 OK") (file_headers name bytes) bytes)
  unfolding serve_file touch
  file-sent name bytes e fits =
      let whole : length bytes % 2 ^ 32 ≡ length bytes = omega arith in
      rw (e, whole, lt→ltb (length bytes) (2 ^ 31 - 1) fits, take_whole bytes)
        (send_body-sent _ bytes
          ∙ ap sent (file_framing (http_get_mime_type name) (decimal (length bytes)) bytes))

  path_file :
      (name bytes : Text)
      → fs.stat name ≡ some regular
      → fs.contents name ≡ some bytes
      → length bytes < 2 ^ 31 - 1
      → (serve_path fs write grant name).reply
        ≡ sent (response (codes "HTTP/1.0 200 OK") (file_headers name bytes) bytes)
  unfolding serve_path touch
  path_file name bytes is_file e fits = rw is_file (file-sent name bytes e fits)

  path_index :
      (name : Text)
      → fs.stat name ≡ some directory
      → (kind : Kind) → fs.stat (name ++ codes "/index.html") ≡ some kind
      → grant 5 ≡ true
      → (serve_path fs write grant name).reply
        ≡ (serve_file fs write grant (name ++ codes "/index.html")).reply
  unfolding serve_path serve_directory touch
  path_index name is_directory kind has_index block = rw (is_directory, block, has_index) refl

  error-sent :
      (code : ℕ) (page : Text)
      → (send_error fs write grant code page).reply
        ≡ sent ((http_start_response code ++ (text_html ++ http_end_headers)) ++ page)
  unfolding send_error
  error-sent code page =
      send_body-sent (http_start_response code ++ (text_html ++ http_end_headers)) page

  module _ (granted : (k : ℕ) → grant k ≡ true) {buffer m p : Text}
      (asks : IsRequest buffer m p) where
    -- The parser hands the request on.
    asked :
        handle_files_request fs write grant (some buffer)
        ≡ handle_request fs write grant (record { method = m; path = p })
    unfolding handle_files_request
    asked = rw (parse-written grant buffer m p granted asks, handle_files_request) refl

    below :
        (peek p == b'/') ≡ true
        → strstr p (codes "..") ≡ false
        → handle_files_request fs write grant (some buffer)
          ≡ serve_path fs write grant (codes "./" ++ p)
    unfolding handle_request
    below absolute no_dots = asked ∙ rw (absolute, no_dots, granted 4) refl

    -- A request for a path that starts with '/', has no ".." and names a regular file of less than
    -- 2^31 - 1 bytes, over a connection that stays up and with memory at hand, is answered with status
    -- 200, the type of the name, the length of the file, and the bytes of the file.
    pub handle-file :
        (bytes : Text)
        → (peek p == b'/') ≡ true
        → strstr p (codes "..") ≡ false
        → fs.stat (codes "./" ++ p) ≡ some regular
        → fs.contents (codes "./" ++ p) ≡ some bytes
        → length bytes < 2 ^ 31 - 1
        → (handle_files_request fs write grant (some buffer)).reply
          ≡ sent (response (codes "HTTP/1.0 200 OK") (file_headers (codes "./" ++ p) bytes) bytes)
    handle-file bytes absolute no_dots is_file e fits =
        rw (below absolute no_dots) (path_file (codes "./" ++ p) bytes is_file e fits)

    -- A request for a directory with an index.html, of less than 2^31 - 1 bytes and that can be opened,
    -- by a path that starts with '/' and has no "..", over a connection that stays up and with memory
    -- at hand, is answered with status 200, the type and the length of that file, and its bytes.
    pub handle-index :
        (kind : Kind) (bytes : Text)
        → (peek p == b'/') ≡ true
        → strstr p (codes "..") ≡ false
        → fs.stat (codes "./" ++ p) ≡ some directory
        → fs.stat ((codes "./" ++ p) ++ codes "/index.html") ≡ some kind
        → fs.contents ((codes "./" ++ p) ++ codes "/index.html") ≡ some bytes
        → length bytes < 2 ^ 31 - 1
        → (handle_files_request fs write grant (some buffer)).reply
          ≡ sent (
              response
                (codes "HTTP/1.0 200 OK")
                (file_headers ((codes "./" ++ p) ++ codes "/index.html") bytes)
                bytes)
    handle-index kind bytes absolute no_dots is_directory has_index e fits =
        rw (below absolute no_dots) (
          path_index (codes "./" ++ p) is_directory kind has_index (granted 5)
          ∙ file-sent ((codes "./" ++ p) ++ codes "/index.html") bytes e fits)

    -- Over a connection that stays up and with memory at hand, a request whose path does not start with
    -- '/' is answered with the page of 400, one with ".." in its path
    -- with 403, and one that names nothing, or neither a file nor a directory, with 404.
    pub handle-IsRefused :
        (name : Text)
        → IsRefused fs p name
        → (handle_files_request fs write grant (some buffer)).reply ≡ sent (refusal name)
    unfolding handle_request serve_path not_found touch
    handle-IsRefused name (relative h) = rw asked (
        rw h (
          error-sent 400 (codes "<center><h1>400 Bad Request</h1><hr></center>")
          ∙ ap sent refusal_400))
    handle-IsRefused name (climbs h k) = rw asked (
        rw (h, k)
          (error-sent 403 (codes "<center><h1>403 Forbidden</h1><hr></center>")
            ∙ ap sent refusal_403))
    handle-IsRefused name (missing h k e) = rw (below h k) (
        rw e (
          error-sent 404 (codes "<center><h1>404 Not Found</h1><hr></center>")
          ∙ ap sent refusal_404))
    handle-IsRefused name (special h k e) = rw (below h k) (
        rw e (
          error-sent 404 (codes "<center><h1>404 Not Found</h1><hr></center>")
          ∙ ap sent refusal_404))
