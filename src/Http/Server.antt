-- ===== src/Http/Server.antt =====
-- server.c: `serve_file`, `serve_directory` and `handle_files_request`. The file system, the client's
-- socket and the memory allocator are parameters.
pub mod Confined
pub mod Framing
pub mod Replies
pub mod Listing
use operating_systems_and_sy.Prelude.{
  ℕ, zero, suc, ◌+◌, ◌-◌, ◌%◌, ◌^◌, ◌<◌, ◌≤◌, ◌≡◌, Bool, true, false, not, ◌&&◌, ◌||◌, Option, none,
  some, List, [], ◌∷◌, ◌++◌, ◌==◌, if◌then◌else◌, length, ltb, leb,
}
use operating_systems_and_sy.CLib.{Text, codes, str_eq}
use operating_systems_and_sy.CLib.Decimal.{decimal}
use operating_systems_and_sy.Http.Parse.{
  HttpRequest, Parsed, request, null, exited, overrun, peek, http_request_parse,
}
use operating_systems_and_sy.Http.Send.{
  http_start_response, http_send_header, http_end_headers, http_send_data, http_get_mime_type, take,
  Sent, complete, failed, unfinished,
}

-- `S_ISDIR`, `S_ISREG`, or neither.
pub data Kind : Type 0 where
  directory regular other : Kind

-- `stat`, the bytes of the file that `fopen` opens, and the names that `opendir` and `readdir` give;
-- none where the call fails.
pub record Files : Type 0 where
  pub stat : Text → Option Kind
  pub contents : Text → Option Text
  pub names : Text → Option (List Text)

-- What the client has got when the handler returns, or that the program has exited, or that it has
-- read through a null pointer or written outside a block.
pub data Reply : Type 0 where
  sent : Text → Reply
  exits : Reply
  undefined : Reply

-- The names that were handed to `stat`, `fopen` and `opendir`, and the reply.
pub record Answer : Type 0 where
  pub touched : List Text
  pub reply : Reply

unfoldable pub touch : Text → Answer → Answer
touch name a = record { touched = name ∷ a.touched; reply = a.reply }

abbrev pub untouched : Reply → Answer
untouched r = record { touched = []; reply = r }

-- `strstr(s, t) != NULL`
unfoldable pub is_prefix : Text → Text → Bool
is_prefix [] s = true
is_prefix (d ∷ t) [] = false
is_prefix (d ∷ t) (c ∷ s) = c == d && is_prefix t s

unfoldable pub strstr : Text → Text → Bool
strstr [] t = is_prefix t []
strstr (c ∷ s) t = is_prefix t (c ∷ s) || strstr s t

abbrev pub data_size : ℕ
data_size = 102400

abbrev pub entry_size : ℕ
entry_size = 1024

-- "<li><a href=\"%s\">%s</a></li>\n"
unfoldable pub entry_line : Text → Text
entry_line name =
    codes "<li><a href=\"" ++ (name ++ (codes "\">" ++ (name ++ (codes "</a></li>" ++ (10 ∷ [])))))

-- What one name from `readdir` does to the string in `data`: none where an array is too short.
unfoldable pub add_entry : Text → Text → Option Text
add_entry page name =
    if not (str_eq name (codes "..")) && not (str_eq name (codes "."))
    then if ltb (length (entry_line name)) entry_size
        && ltb (length page + length (entry_line name)) data_size
      then some (page ++ entry_line name)
      else none
    else some page

-- The loop over `readdir`.
unfoldable pub list_entries : Text → List Text → Option Text
list_entries page [] = some page
list_entries page (name ∷ more) = elim (add_entry page name) [
  | none ↦ none
  | some longer ↦ list_entries longer more
]

unfoldable pub page_head : Text → Text
page_head path =
    codes "<center><h1>"
    ++ (path
        ++ (codes "</h1></center>"
            ++ (10
                ∷ (codes "<ul>"
                    ++ (10
                        ∷ (codes "<li><a href=\"../\">Parent directory</a></li>" ++ (10 ∷ [])))))))

-- The page that is in `data` at the end, if it fits.
unfoldable pub listing : Text → List Text → Option Text
listing path entries =
    if ltb (length (page_head path)) data_size
    then elim (list_entries (page_head path) entries) [
      | none ↦ none
      | some page ↦
          if ltb (length page + length (codes "</ul>")) data_size
          then some (page ++ codes "</ul>")
          else none
    ]
    else none

abbrev pub text_html : Text
text_html = http_send_header (codes "Content-Type") (codes "text/html")

-- `fs` is the file system, `write` is the socket and `grant` the allocator.
module _ (fs : Files) (write : ℕ → Text → Option ℕ) (grant : ℕ → Bool) where
  -- `http_send_data(socket_fd, data, size)` behind the headers. It is the first and only such call of
  -- a request, and each call of `write` takes a byte, or it does not return.
  unfoldable pub send_body : Text → Text → Reply
  send_body headers s = elim (http_send_data write (length s) 0 s) [
    | complete out k ↦ sent (headers ++ out)
    | failed out k ↦ sent (headers ++ out)
    | unfinished ↦ undefined
  ]

  -- The length is an `int`; `buffer[len+1]` must have a positive size.
  unfoldable pub serve_file : Text → Answer
  serve_file path = touch path (elim (fs.contents path) [
    | none ↦ untouched undefined
    | some bytes ↦
        let len = length bytes % 2 ^ 32 in
        if ltb len (2 ^ 31 - 1)
        then untouched (
            send_body
              (http_start_response 200
                ++ (http_send_header (codes "Content-Type") (http_get_mime_type path)
                    ++ (http_send_header (codes "Content-Length") (decimal len)
                        ++ http_end_headers)))
              (take len bytes))
        else untouched undefined
  ])

  unfoldable pub serve_listing : Text → Answer
  serve_listing path =
      let headers = http_start_response 200 ++ (text_html ++ http_end_headers) in
      touch path (elim (fs.names path) [
        | none ↦ untouched (sent headers)
        | some entries ↦ elim (listing path entries) [
          | none ↦ untouched undefined
          | some page ↦ untouched (send_body headers page)
        ]
      ])

  unfoldable pub serve_directory : Text → Answer
  serve_directory path =
      let index = path ++ codes "/index.html" in
      if grant 5
      then touch index
          (elim (fs.stat index) [ some kind ↦ serve_file index | none ↦ serve_listing path ])
      else untouched undefined

  -- The three error pages.
  unfoldable pub send_error : ℕ → Text → Answer
  send_error status_code page =
      untouched
        (send_body (http_start_response status_code ++ (text_html ++ http_end_headers)) page)

  unfoldable pub not_found : Answer
  not_found = send_error 404 (codes "<center><h1>404 Not Found</h1><hr></center>")

  unfoldable pub serve_path : Text → Answer
  serve_path path = touch path (elim (fs.stat path) [
    | none ↦ not_found
    | some directory ↦ serve_directory path
    | some regular ↦ serve_file path
    | some other ↦ not_found
  ])

  unfoldable pub handle_request : HttpRequest → Answer
  handle_request asked =
      if not (peek asked.path == b'/')
      then send_error 400 (codes "<center><h1>400 Bad Request</h1><hr></center>")
      else if strstr asked.path (codes "..")
      then send_error 403 (codes "<center><h1>403 Forbidden</h1><hr></center>")
      else if grant 4
      then serve_path (codes "./" ++ asked.path)
      else untouched undefined

  unfoldable pub handle_files_request : Option Text → Answer
  handle_files_request received = elim (http_request_parse grant received) [
    | null ↦ send_error 400 (codes "<center><h1>400 Bad Request</h1><hr></center>")
    | request r ↦ handle_request r
    | exited ↦ untouched exits
    | overrun ↦ untouched undefined
  ]
