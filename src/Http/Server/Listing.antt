-- ===== src/Http/Server/Listing.antt =====
-- The page that `serve_directory` makes of a directory without index.html.
use operating_systems_and_sy.Prelude.{
  ◌+◌, ◌<◌, ◌≡◌, refl, ◌∙◌, ap, inl, inr, Bool, true, false, not, ◌&&◌, some, Bool-cases, List, [],
  ◌∷◌, ◌++◌, append_assoc, append-nil, if◌then◌else◌, length, length-append, arith, lt→ltb,
}
use operating_systems_and_sy.CLib.{Text, codes, str_eq}
use operating_systems_and_sy.Http.Server.{
  add_entry, list_entries, listing, page_head, entry_line, data_size, entry_size,
}

-- A name that is left out of the page: "." and "..".
abbrev pub is_listed : Text → Bool
is_listed name = not (str_eq name (codes "..")) && not (str_eq name (codes "."))

-- A link for each of the other names, in their order.
unfoldable pub links : List Text → Text
links [] = []
links (name ∷ more) =
    let rest = links more in if is_listed name then entry_line name ++ rest else rest

abbrev pub AllShort : List Text → Type 0
AllShort [] = Unit {0}
AllShort (name ∷ more) = (length (entry_line name) < entry_size) × AllShort more

add_listed :
    (page name : Text)
    → is_listed name ≡ true
    → length (entry_line name) < entry_size
    → length page + length (entry_line name) < data_size
    → add_entry page name ≡ some (page ++ entry_line name)
unfolding add_entry
add_listed page name h short fits =
    rw
      (
        h,
        lt→ltb (length (entry_line name)) entry_size short,
        lt→ltb (length page + length (entry_line name)) data_size fits,
      )
      refl

add_hidden : (page name : Text) → is_listed name ≡ false → add_entry page name ≡ some page
unfolding add_entry
add_hidden page name h = rw h refl

list_entries-links :
    (page : Text) (names : List Text)
    → AllShort names
    → length page + length (links names) < data_size
    → list_entries page names ≡ some (page ++ links names)
unfolding list_entries links
list_entries-links page [] short fits = rw (append-nil page) refl
list_entries-links page (name ∷ more) short fits = elim (Bool-cases (is_listed name)) [
  | inl h ↦
      let total = length-append (entry_line name) (links more) in
      let budget : length page + length (entry_line name) + length (links more) < data_size =
        omega (arith, rw (h, total) at fits) in
      let step = add_listed page name h short.0 (omega (arith, budget)) in
      let rest =
        list_entries-links (page ++ entry_line name) more short.1
          (omega (arith, length-append page (entry_line name), budget)) in
      rw (h, step, list_entries) (rest ∙ ap some (append_assoc page (entry_line name) (links more)))
  | inr h ↦
      rw (h, add_hidden page name h, list_entries)
        (list_entries-links page more short.1 (rw h at fits))
]

-- If each entry is short enough for its array and the page is short enough for the other array, the
-- page has a link for each name in the directory other than "." and "..", in the order of `readdir`.
pub listing-links :
    (path : Text) (names : List Text)
    → AllShort names
    → length (page_head path) + length (links names) + length (codes "</ul>") < data_size
    → listing path names ≡ some ((page_head path ++ links names) ++ codes "</ul>")
unfolding listing
listing-links path names short fits =
    let made = list_entries-links (page_head path) names short (omega arith) in
    rw
      (
        lt→ltb (length (page_head path)) data_size (omega arith),
        made,
        length-append (page_head path) (links names),
        lt→ltb (length (page_head path) + length (links names) + length (codes "</ul>")) data_size
            fits,
      )
      refl
