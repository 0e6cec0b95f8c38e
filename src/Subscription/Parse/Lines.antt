-- ===== src/Subscription/Parse/Lines.antt =====
-- The lines of a subscription that internal/subscription/subscription.go has joined are read back by
-- ParseLinks of internal/subscription/parse.go one by one.
use proxy_control_plane.Base.{
  Text, codes, true, false, List, [], ◌∷◌, ◌++◌, ◌≡◌, refl, ap, ◌∙◌, arith, All, Result, ok, err,
  ◌>>=◌, str_eq, trim_space, to_lower, lower, has_prefix, contains,
}
use proxy_control_plane.Subscription.{join_lines}
use proxy_control_plane.Subscription.Parse.{
  VlessLink, ParseResult, Library, parse_vless_link, is_break, push_field, fields_from, line_fields,
  is_vless, with_link, parse_lines, has_vless, decoded_text, parse_links,
}

-- A line of a subscription: it has no break, nothing to trim, and is a VLESS link.
pub record IsLine (line : Text) : Type 0 where
  pub unbroken : All (λ c. is_break c ≡ false) line
  pub trimmed : trim_space line ≡ line
  pub filled : str_eq line [] ≡ false
  pub link : is_vless line ≡ true

-- Every line becomes one link, in order; the first that is no link is the error.
unfoldable pub links_of_lines : Library → List Text → Result Text (List VlessLink)
links_of_lines lib [] = ok []
links_of_lines lib (line ∷ lines) =
    parse_vless_link lib line >>= λ link. links_of_lines lib lines >>= λ links. ok (link ∷ links)

abbrev pub only_links : List VlessLink → ParseResult
only_links links = record { vless_links = links; unsupported_uris = 0 }

fields_from-line :
    (line rest : Text)
    → All (λ c. is_break c ≡ false) line
    → fields_from (line ++ 10 ∷ rest) ≡ (line, line_fields rest)
unfolding fields_from line_fields
fields_from-line [] rest u = refl
fields_from-line (c ∷ line) rest (here, u) = rw (here, fields_from-line line rest u) refl

fields_from-last :
    (line : Text) → All (λ c. is_break c ≡ false) line → fields_from line ≡ (line, [])
unfolding fields_from
fields_from-last [] u = refl
fields_from-last (c ∷ line) (here, u) = rw (here, fields_from-last line u) refl

push_filled :
    (line : Text) (fields : List Text)
    → str_eq line [] ≡ false
    → push_field line fields ≡ line ∷ fields
unfolding str_eq
push_filled [] fields h = absurd (ground arith)
push_filled (c ∷ line) fields h = refl

line_fields-join : (lines : List Text) → All IsLine lines → line_fields (join_lines lines) ≡ lines
unfolding line_fields join_lines
line_fields-join [] all = unfold fields_from in refl
line_fields-join (line ∷ []) (l, all) =
    rw (fields_from-last line l.unbroken) (push_filled line [] l.filled)
line_fields-join (line ∷ m ∷ lines) (l, all) =
    rw (fields_from-line line (join_lines (m ∷ lines)) l.unbroken)
      (push_filled line _ l.filled ∙ (λ i. line ∷ line_fields-join (m ∷ lines) all i))

-- Reading the links and then making a result is the same in either order.
only_links-cons :
    (r : Result Text VlessLink) (s : Result Text (List VlessLink))
    → (r >>= λ link.
        (s >>= λ links. ok (only_links links)) >>= λ result. ok (with_link link result))
      ≡ ((r >>= λ link. s >>= λ links. ok (link ∷ links)) >>= λ links. ok (only_links links))
only_links-cons (ok link) (ok links) = refl
only_links-cons (ok link) (err e) = refl
only_links-cons (err e) s = refl

parse_lines-links :
    (lib : Library) (lines : List Text)
    → All IsLine lines
    → parse_lines lib lines ≡ (links_of_lines lib lines >>= λ links. ok (only_links links))
unfolding parse_lines links_of_lines
parse_lines-links lib [] all = refl
parse_lines-links lib (line ∷ lines) (l, all) =
    rw (l.trimmed, l.filled, l.link, parse_lines-links lib lines all)
      (only_links-cons (parse_vless_link lib line) (links_of_lines lib lines))

prefix-append : (p s t : Text) → has_prefix s p ≡ true → has_prefix (s ++ t) p ≡ true
unfolding str_eq
prefix-append [] s t h = ground arith
prefix-append (c ∷ p) [] t h = absurd (ground arith)
prefix-append (c ∷ p) (x ∷ s) t h = ground (arith, prefix-append p s t)

to_lower-append : (s t : Text) → to_lower (s ++ t) ≡ to_lower s ++ to_lower t
unfolding to_lower
to_lower-append [] t = refl
to_lower-append (c ∷ s) t = λ i. lower c ∷ to_lower-append s t i

filled_vless : (s : Text) → is_vless s ≡ true → str_eq s [] ≡ false
unfolding is_vless to_lower str_eq
filled_vless [] h = absurd (ground arith)
filled_vless (c ∷ s) h = refl

vless-contains : (s : Text) → is_vless s ≡ true → has_vless s ≡ true
unfolding is_vless to_lower contains str_eq
vless-contains [] h = absurd (ground arith)
vless-contains (c ∷ s) h = ground arith

join-is_vless :
    (line : Text) (lines : List Text)
    → is_vless line ≡ true
    → is_vless (join_lines (line ∷ lines)) ≡ true
unfolding join_lines is_vless
join-is_vless line [] h = h
join-is_vless line (m ∷ lines) h =
    rw (to_lower-append line (10 ∷ join_lines (m ∷ lines)))
      (prefix-append (codes "vless://") (to_lower line) _ h)

-- A text of joined lines that begins and ends with no white space, each of them a VLESS link without a
-- line break and with nothing to trim, is read as one link for each line, in their order, with no URI
-- that is not supported; and it is an error exactly where the reading of a line is.
pub parse_links-join :
    (lib : Library) (line : Text) (lines : List Text)
    → All IsLine (line ∷ lines)
    → trim_space (join_lines (line ∷ lines)) ≡ join_lines (line ∷ lines)
    → parse_links lib (join_lines (line ∷ lines))
      ≡ (links_of_lines lib (line ∷ lines) >>= λ links. ok (only_links links))
unfolding parse_links decoded_text
parse_links-join lib line lines all trimmed =
    let text = join_lines (line ∷ lines) in
    let vless = join-is_vless line lines all.0.link in
    rw (trimmed, filled_vless text vless, vless-contains text vless)
      (ap (parse_lines lib) (line_fields-join (line ∷ lines) all)
        ∙ parse_lines-links lib (line ∷ lines) all)
