-- ===== src/Subscription/Parse/Tests.antt =====
-- Runs of ParseLinks.
use proxy_control_plane.Base.{
  Text, codes, none, some, [], ◌∷◌, ◌≡◌, refl, ok, ◌>>=◌, str_eq, trim_space, trim_left, trim_right,
  is_space, lower, to_lower, contains,
}
use proxy_control_plane.Subscription.{join_lines}
use proxy_control_plane.Subscription.Parse.{
  Library, is_vless, fields_from, line_fields, parse_lines, skip_line, looks_like_uri, ends_scheme,
  is_scheme_byte, decoded_text, parse_links, decode_subscription_base64, first_decoded,
}
use proxy_control_plane.Subscription.Parse.Lines.{
  IsLine, links_of_lines, only_links, parse_links-join,
}

running : Unit {0}
unfolding is_vless fields_from line_fields parse_lines skip_line looks_like_uri ends_scheme
    is_scheme_byte decoded_text parse_links decode_subscription_base64 first_decoded join_lines
    str_eq trim_space trim_left trim_right is_space lower to_lower contains
running = tt

-- A library that parses every text to the same URL.
abbrev library : Library
library = record {
  parse = λ raw. some (record {
    scheme = codes "vless";
    username = codes "u";
    hostname = codes "h";
    port = [];
    fragment = [];
    query = λ name. [];
  });
  atoi = λ text. none;
  decodings = [];
}

other_schemes :
    parse_links library (codes "trojan://x\r\n# a comment\n ss://y ")
    ≡ ok (record { vless_links = []; unsupported_uris = 2 })
unfolding running
other_schemes = refl

abbrev line_a : Text
line_a = codes "vless://a"

abbrev line_b : Text
line_b = codes "VLESS://b"

line_a-IsLine : IsLine line_a
unfolding running
line_a-IsLine = record {
  unbroken = (refl, (refl, (refl, (refl, (refl, (refl, (refl, (refl, (refl, tt)))))))));
  trimmed = refl;
  filled = refl;
  link = refl;
}

line_b-IsLine : IsLine line_b
unfolding running
line_b-IsLine = record {
  unbroken = (refl, (refl, (refl, (refl, (refl, (refl, (refl, (refl, (refl, tt)))))))));
  trimmed = refl;
  filled = refl;
  link = refl;
}

two_lines_trimmed :
    trim_space (join_lines (line_a ∷ line_b ∷ [])) ≡ join_lines (line_a ∷ line_b ∷ [])
unfolding running
two_lines_trimmed = refl

parse_links-join_example :
    parse_links library (join_lines (line_a ∷ line_b ∷ []))
    ≡ (links_of_lines library (line_a ∷ line_b ∷ []) >>= λ links. ok (only_links links))
parse_links-join_example =
    parse_links-join library line_a (line_b ∷ []) (line_a-IsLine, (line_b-IsLine, tt))
      two_lines_trimmed
