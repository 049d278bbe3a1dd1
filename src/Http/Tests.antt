-- ===== src/Http/Tests.antt =====
-- The HTTP server on small requests.
use operating_systems_and_sy.Prelude.{
  ℕ, zero, suc, ◌≡◌, refl, ap, Bool, true, Option, none, some, List, [], ◌∷◌, ◌++◌, arith, length,
  ℕ_discrete,
}
use operating_systems_and_sy.CLib.{Text, codes, is_upper, str_eq, strcmp}
use operating_systems_and_sy.Http.Parse.{
  request, http_request_parse, in_method, in_path, in_line, peek,
}
use operating_systems_and_sy.Http.Parse.Accepted.{IsRequest, parse-written, parse-IsRequest}
use operating_systems_and_sy.Http.Send.{http_send_data}
use operating_systems_and_sy.Http.Send.Data.{Takes, Delivers, Connected, http_send_data-Delivers}
use operating_systems_and_sy.Http.Server.{
  directory, regular, Files, sent, handle_files_request, listing, page_head, entry_line, strstr,
  is_prefix,
}
use operating_systems_and_sy.Http.Server.Confined.{AllConfined, handle-AllConfined}
use operating_systems_and_sy.Http.Server.Framing.{response, file_headers, refusal, missing}
use operating_systems_and_sy.Http.Server.Replies.{handle-file, handle-IsRefused}
use operating_systems_and_sy.Http.Server.Listing.{links, listing-links}
use operating_systems_and_sy.Http.Pool.Queue.{DoublyLinked, Wq, wq_init, wq_pop, wq_push}
use operating_systems_and_sy.Http.Pool.Workers.{
  Pool, new_dispatcher, dispatch, after_pop, accept, pop, Reach, here, step,
}
use operating_systems_and_sy.Http.Pool.Served.{taken-in_order, sleeps-empty}

abbrev grants : ℕ → Bool
grants k = true

abbrev get_a : Text
get_a = codes "GET /a HTTP/1.0" ++ (10 ∷ [])

get_a-IsRequest : IsRequest get_a (codes "GET") (codes "/a")
unfolding in_method in_path in_line peek is_upper
get_a-IsRequest = record {
  line = codes " HTTP/1.0";
  tail = [];
  written = refl;
  letters = (refl, (refl, (refl, tt)));
  any_letter = omega arith;
  shown = (refl, (refl, tt));
  any_shown = omega arith;
  in_first = (refl, (refl, (refl, (refl, (refl, (refl, (refl, (refl, (refl, tt)))))))));
  path_ends = refl;
}

parse-written_example :
    http_request_parse grants (some get_a)
    ≡ request (record { method = codes "GET"; path = codes "/a" })
parse-written_example =
    parse-written grants get_a (codes "GET") (codes "/a") (λ k. refl) get_a-IsRequest

parse-IsRequest_example : IsRequest get_a (codes "GET") (codes "/a")
parse-IsRequest_example =
    parse-IsRequest grants get_a (record { method = codes "GET"; path = codes "/a" })
      parse-written_example

-- A client that takes one byte at each call, and one that leaves after the first call.
abbrev slow : ℕ → Text → Option ℕ
slow k s = some 1

abbrev leaves : ℕ → Text → Option ℕ
leaves zero s = some 1
leaves (suc k) s = none

leaves-Takes : Takes leaves
leaves-Takes zero s n h e = ground arith
leaves-Takes (suc k) s n h e = cc e

slow-Connected : Connected slow
slow-Connected k s h = (1, refl, omega arith, omega arith)

http_send_data-Delivers_example : Delivers (codes "hi") (http_send_data leaves 2 0 (codes "hi"))
http_send_data-Delivers_example =
    http_send_data-Delivers leaves leaves-Takes 2 0 (codes "hi") (omega arith)

-- A file system in which each name is a file, a directory, or nothing.
abbrev all_files : Files
all_files = record {
  stat = λ name. some regular;
  contents = λ name. some (codes "hi");
  names = λ name. none;
}

abbrev all_directories : Files
all_directories = record {
  stat = λ name. some directory;
  contents = λ name. some (codes "hi");
  names = λ name. some [];
}

abbrev no_files : Files
no_files = record { stat = λ name. none; contents = λ name. none; names = λ name. none }

handle-AllConfined_example :
    AllConfined (handle_files_request all_files slow grants (some get_a)).touched
handle-AllConfined_example = handle-AllConfined all_files slow grants (some get_a)

handle-file_example :
    (handle_files_request all_files slow grants (some get_a)).reply
    ≡ sent
        (response (codes "HTTP/1.0 200 OK") (file_headers (codes ".//a") (codes "hi")) (codes "hi"))
unfolding strstr is_prefix peek
handle-file_example =
    handle-file all_files slow grants slow-Connected (λ k. refl) get_a-IsRequest (codes "hi") refl
      refl refl refl (omega arith)

handle-IsRefused_example :
    (handle_files_request no_files slow grants (some get_a)).reply
    ≡ sent (refusal (codes "404 Not Found"))
unfolding strstr is_prefix peek
handle-IsRefused_example =
    handle-IsRefused no_files slow grants slow-Connected (λ k. refl) get_a-IsRequest
      (codes "404 Not Found") (missing refl refl refl)

abbrev entries : List Text
entries = codes "." ∷ codes ".." ∷ codes "a" ∷ []

listing-links_example :
    listing (codes ".//") entries
    ≡ some ((page_head (codes ".//") ++ links entries) ++ codes "</ul>")
unfolding page_head links entry_line str_eq strcmp
listing-links_example =
    listing-links (codes ".//") entries (omega arith, (omega arith, (omega arith, tt)))
      (omega arith)

-- Lists themselves are doubly linked lists.
abbrev first_of : List ℕ → Option ℕ
first_of [] = none
first_of (fd ∷ l) = some fd

abbrev rest_of : List ℕ → List ℕ
rest_of [] = []
rest_of (fd ∷ l) = l

abbrev lists : DoublyLinked
lists = record {
  Head = List ℕ;
  empty = [];
  items = λ l. l;
  first = first_of;
  dl_append = λ l fd. l ++ fd ∷ [];
  dl_delete_first = rest_of;
  items-empty = refl;
  items-append = λ l fd. refl;
  items-first = λ l fd rest e. ap first_of e;
  items-delete = λ l fd rest e. ap rest_of e;
}

abbrev queued : Wq lists
queued = wq_push lists (wq_init lists) 4

abbrev p0 : Pool lists
p0 = new_dispatcher lists

abbrev p1 : Pool lists
p1 = after_pop lists p0 3 (wq_pop lists (p0.work_queue))

asleep : Reach lists p1
asleep = step here (pop 3 refl)

abbrev p2 : Pool lists
p2 = dispatch lists p1 4

p2-Reach : Reach lists p2
p2-Reach = step asleep (accept 4)

taken-in_order_example : p2.dispatched ≡ p2.taken ++ p2.work_queue.head
taken-in_order_example = taken-in_order p2-Reach

sleeps-empty_example : length (p1.work_queue.head) ≡ 0
unfolding ℕ_discrete wq_pop wq_init
sleeps-empty_example = sleeps-empty 3 asleep refl (omega arith)
