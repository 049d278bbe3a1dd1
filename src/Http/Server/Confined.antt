-- ===== src/Http/Server/Confined.antt =====
-- The names that a request can make the server hand to the file system.
use operating_systems_and_sy.Prelude.{
  ℕ, ◌%◌, ◌^◌, ◌-◌, ◌≡◌, refl, inl, inr, Bool, true, false, ◌&&◌, ◌||◌, Option, none, some,
  Option-cases, Bool-cases, List, [], ◌∷◌, ◌++◌, ◌==◌, ltb, length,
}
use operating_systems_and_sy.CLib.{Text, codes}
use operating_systems_and_sy.Http.Parse.{
  HttpRequest, Parsed, request, null, exited, overrun, peek, http_request_parse,
}
use operating_systems_and_sy.Http.Server.{
  Kind, directory, regular, other, Files, touch, is_prefix, strstr, serve_file, serve_listing,
  serve_directory, send_error, not_found, serve_path, handle_request, handle_files_request, listing,
}

-- A name below the directory that the server runs in, with no ".." in it.
abbrev pub IsConfined : Text → Type 0
IsConfined name = (is_prefix (codes "./") name ≡ true) × (strstr name (codes "..") ≡ false)

abbrev pub AllConfined : List Text → Type 0
AllConfined [] = Unit {0}
AllConfined (name ∷ names) = IsConfined name × AllConfined names

or_false : {a b : Bool} → (a || b) ≡ false → (a ≡ false) × (b ≡ false)
or_false {a = true} h = absurd (cc h)
or_false {a = false} h = (refl, h)

or_both : {a b : Bool} → a ≡ false → b ≡ false → (a || b) ≡ false
or_both {a = true} h k = absurd (cc h)
or_both {a = false} h k = k

and_false : (a : Bool) → (a && false) ≡ false
and_false true = refl
and_false false = refl

-- Behind a '/', a ".." is in the one part or in the other.
strstr-slash :
    (a b : Text)
    → strstr a (codes "..") ≡ false
    → strstr b (codes "..") ≡ false
    → strstr (a ++ b'/' ∷ b) (codes "..") ≡ false
unfolding strstr is_prefix
strstr-slash [] b ha hb = hb
strstr-slash (c ∷ []) b ha hb = or_both (and_false (c == b'.')) hb
strstr-slash (c ∷ d ∷ a) b ha hb =
    let (here, later) = or_false ha in or_both here (strstr-slash (d ∷ a) b later hb)

-- The name that the handler makes of a path of a request.
made-IsConfined : (p : Text) → strstr p (codes "..") ≡ false → IsConfined (codes "./" ++ p)
unfolding strstr is_prefix
made-IsConfined p h = (refl, h)

prefix_longer : (t s u : Text) → is_prefix t s ≡ true → is_prefix t (s ++ u) ≡ true
unfolding is_prefix
prefix_longer [] s u h = refl
prefix_longer (d ∷ t) [] u h = absurd (cc h)
prefix_longer (d ∷ t) (c ∷ s) u h = elim (Bool-cases (c == d)) [
  | inl e ↦ rw e (prefix_longer t s u (rw e at h))
  | inr e ↦ absurd (cc (rw e at h))
]

no_index : strstr (codes "index.html") (codes "..") ≡ false
unfolding strstr is_prefix
no_index = refl

index-IsConfined : (name : Text) → IsConfined name → IsConfined (name ++ codes "/index.html")
index-IsConfined name (prefix, no_dots) = (
  prefix_longer (codes "./") name (codes "/index.html") prefix,
  strstr-slash name (codes "index.html") no_dots no_index,
)

module _ (fs : Files) (write : ℕ → Text → Option ℕ) (grant : ℕ → Bool) where
  serve_file-Confined :
      (path : Text) → IsConfined path → AllConfined (serve_file fs write grant path).touched
  unfolding serve_file touch
  serve_file-Confined path h = elim (Option-cases (fs.contents path)) [
    | inl e ↦ rw e (h, tt)
    | inr (bytes, e) ↦ elim (Bool-cases (ltb (length bytes % 2 ^ 32) (2 ^ 31 - 1))) [
      | inl fits ↦ rw (e, fits) (h, tt)
      | inr big ↦ rw (e, big) (h, tt)
    ]
  ]

  serve_listing-Confined :
      (path : Text) → IsConfined path → AllConfined (serve_listing fs write grant path).touched
  unfolding serve_listing touch
  serve_listing-Confined path h = elim (Option-cases (fs.names path)) [
    | inl e ↦ rw e (h, tt)
    | inr (entries, e) ↦ elim (Option-cases (listing path entries)) [
      | inl long ↦ rw (e, long) (h, tt)
      | inr (page, fits) ↦ rw (e, fits) (h, tt)
    ]
  ]

  serve_directory-Confined :
      (path : Text) → IsConfined path → AllConfined (serve_directory fs write grant path).touched
  unfolding serve_directory touch
  serve_directory-Confined path h = elim (Bool-cases (grant 5)) [
    | inr none_left ↦ rw none_left tt
    | inl block ↦ elim (Option-cases (fs.stat (path ++ codes "/index.html"))) [
      | inl e ↦ rw (block, e) (index-IsConfined path h, serve_listing-Confined path h)
      | inr (kind, e) ↦
          let index = index-IsConfined path h in
          rw (block, e) (index, serve_file-Confined (path ++ codes "/index.html") index)
    ]
  ]

  kind_cases :
      (path : Text) (o : Option Kind)
      → fs.stat path ≡ o
      → IsConfined path
      → AllConfined (serve_path fs write grant path).touched
  unfolding serve_path touch not_found send_error
  kind_cases path none e h = rw e (h, tt)
  kind_cases path (some directory) e h = rw e (h, serve_directory-Confined path h)
  kind_cases path (some regular) e h = rw e (h, serve_file-Confined path h)
  kind_cases path (some other) e h = rw e (h, tt)

  handle_request-Confined :
      (r : HttpRequest) → AllConfined (handle_request fs write grant r).touched
  unfolding handle_request send_error
  handle_request-Confined r = elim (Bool-cases (peek r.path == b'/')) [
    | inr relative ↦ rw relative tt
    | inl absolute ↦ elim (Bool-cases (strstr r.path (codes ".."))) [
      | inl dots ↦ rw (absolute, dots) tt
      | inr none_there ↦ elim (Bool-cases (grant 4)) [
        | inr none_left ↦ rw (absolute, none_there, none_left) tt
        | inl block ↦
            rw (absolute, none_there, block)
              (kind_cases (codes "./" ++ r.path) (fs.stat (codes "./" ++ r.path)) refl
                (made-IsConfined r.path none_there))
      ]
    ]
  ]

  answered :
      (received : Option Text) (p : Parsed)
      → http_request_parse grant received ≡ p
      → AllConfined (handle_files_request fs write grant received).touched
  unfolding handle_files_request send_error
  answered received null e = rw (e, AllConfined) tt
  answered received (request r) e = rw (e, AllConfined) (handle_request-Confined r)
  answered received exited e = rw (e, AllConfined) tt
  answered received overrun e = rw (e, AllConfined) tt

  -- Whatever bytes a client sends and whatever the file system holds, every name that
  -- `handle_files_request` hands to `stat`, `fopen` or `opendir` starts with "./" and has no ".." in it.
  pub handle-AllConfined :
      (received : Option Text) → AllConfined (handle_files_request fs write grant received).touched
  handle-AllConfined received = answered received (http_request_parse grant received) refl
