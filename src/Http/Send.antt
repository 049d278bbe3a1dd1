-- ===== src/Http/Send.antt =====
-- The responses of libhttp.c: `http_get_response_message`, `http_start_response`, `http_send_header`,
-- `http_end_headers`, `http_send_data`, `http_send_string` and `http_get_mime_type`.
pub mod Data
use operating_systems_and_sy.Prelude.{
  ℕ, zero, suc, ◌+◌, ◌-◌, ◌<◌, ◌≤◌, ◌≡◌, Bool, true, false, ◌||◌, Option, none, some, List, [], ◌∷◌,
  ◌++◌, ◌==◌, if◌then◌else◌, length,
}
use operating_systems_and_sy.CLib.{Text, codes, str_eq}
use operating_systems_and_sy.CLib.Decimal.{decimal}

unfoldable pub http_get_response_message : ℕ → Text
http_get_response_message status_code =
    if status_code == 100
    then codes "Continue"
    else if status_code == 200
    then codes "OK"
    else if status_code == 301
    then codes "Moved Permanently"
    else if status_code == 302
    then codes "Found"
    else if status_code == 304
    then codes "Not Modified"
    else if status_code == 400
    then codes "Bad Request"
    else if status_code == 401
    then codes "Unauthorized"
    else if status_code == 403
    then codes "Forbidden"
    else if status_code == 404
    then codes "Not Found"
    else if status_code == 405
    then codes "Method Not Allowed"
    else codes "Internal Server Error"

-- "\r\n"
abbrev pub crlf : Text
crlf = 13 ∷ 10 ∷ []

-- What the three calls of `dprintf` write.
unfoldable pub http_start_response : ℕ → Text
http_start_response status_code =
    codes "HTTP/1.0 "
    ++ (decimal status_code ++ (b' ' ∷ (http_get_response_message status_code ++ crlf)))

unfoldable pub http_send_header : Text → Text → Text
http_send_header key value = key ++ (codes ": " ++ (value ++ crlf))

unfoldable pub http_end_headers : Text
http_end_headers = crlf

unfoldable pub drop : ℕ → Text → Text
drop zero s = s
drop (suc n) [] = []
drop (suc n) (c ∷ s) = drop n s

unfoldable pub take : ℕ → Text → Text
take zero s = []
take (suc n) [] = []
take (suc n) (c ∷ s) = c ∷ take n s

-- How `http_send_data` ends: all of the data was sent, or `write` failed and it returned; the text is
-- what the client got from it, and the number is that of the calls of `write` so far. On too little
-- fuel it is `unfinished`.
pub data Sent : Type 0 where
  complete : Text → ℕ → Sent
  failed : Text → ℕ → Sent
  unfinished : Sent

-- A round of the loop behind the text of an earlier round.
unfoldable pub sent_before : Text → Sent → Sent
sent_before out (complete rest k) = complete (out ++ rest) k
sent_before out (failed rest k) = failed (out ++ rest) k
sent_before out unfinished = unfinished

-- `write k data` is what the k-th call of `write` returns for the data: the number of bytes that it
-- wrote, or none for -1.
module _ (write : ℕ → Text → Option ℕ) where
  unfoldable pub http_send_data : ℕ → ℕ → Text → Sent
  http_send_data fuel k [] = complete [] k
  http_send_data zero k (c ∷ s) = unfinished
  http_send_data (suc fuel) k (c ∷ s) = elim (write k (c ∷ s)) [
    | none ↦ failed [] (suc k)
    | some sent ↦ sent_before (take sent (c ∷ s)) (http_send_data fuel (suc k) (drop sent (c ∷ s)))
  ]

-- `strrchr(s, c)`: the rest of the string from the last occurrence on.
unfoldable pub strrchr : Text → ℕ → Option Text
strrchr [] c = none
strrchr (d ∷ s) c =
    let later = strrchr s c in
    elim later [ some t ↦ some t | none ↦ if d == c then some (d ∷ s) else none ]

unfoldable pub mime_of : Text → Text
mime_of file_extension =
    if str_eq file_extension (codes ".html") || str_eq file_extension (codes ".htm")
    then codes "text/html"
    else if str_eq file_extension (codes ".jpg") || str_eq file_extension (codes ".jpeg")
    then codes "image/jpeg"
    else if str_eq file_extension (codes ".png")
    then codes "image/png"
    else if str_eq file_extension (codes ".css")
    then codes "text/css"
    else if str_eq file_extension (codes ".js")
    then codes "application/javascript"
    else if str_eq file_extension (codes ".pdf")
    then codes "application/pdf"
    else codes "text/plain"

unfoldable pub http_get_mime_type : Text → Text
http_get_mime_type file_name = elim (strrchr file_name b'.') [
  | none ↦ codes "text/plain"
  | some file_extension ↦ mime_of file_extension
]
