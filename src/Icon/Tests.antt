-- ===== src/Icon/Tests.antt =====
-- Runs of the icon's parser and editor, and the theorems at concrete icons.
use plugin_pocket.Base.{
  ◌≡◌, refl, true, none, some, [], ◌∷◌, codes, trim, trim_start, is_space, lower_unit, ok, err,
}
use plugin_pocket.Settlement.{utf8_length}
use plugin_pocket.Icon.{
  Element, Web, invalid, unprocessed, has_outside_url, is_bad_attribute, is_bad_element, svg_data,
  data_url, parse_icon, try_sizes, compress_image,
}
use plugin_pocket.Icon.Editor.{Editor, report, accept, Task, choose, finish, clear, set_draft}
use plugin_pocket.Icon.Safety.{IsIcon, parse_icon-IsIcon}

runs : Unit {0}
unfolding has_outside_url is_bad_attribute is_bad_element svg_data data_url parse_icon try_sizes
    compress_image report accept choose finish clear set_draft trim trim_start is_space lower_unit
    utf8_length
runs = tt

abbrev circle : Element
circle = record {
  local_name = codes "circle";
  attributes = record { local_name = codes "fill"; value = codes "url(#g)" } ∷ [];
}

abbrev button : Element
button = record {
  local_name = codes "g";
  attributes = record { local_name = codes "onClick"; value = [] } ∷ [];
}

-- Every text is this drawing, and the address has no user.
abbrev web_with : Element → Web
web_with e = record {
  parse_svg = λ s. some (record { root = codes "svg"; elements = e ∷ [] });
  parse_url = λ s. some (record { protocol = codes "https:"; username = []; password = [] });
  base64_of = λ s. codes "AAAA";
  bytes_of = λ s. some (codes "png");
  utf8_of = λ s. some s;
  fit = λ side longest length. side;
  draw = λ width height. codes "data:image/webp,AAAA";
}

drawing_taken :
    parse_icon (web_with circle) (codes " <svg/>") ≡ ok (codes "data:image/svg+xml;base64,AAAA")
unfolding runs
drawing_taken = refl

handler_refused : parse_icon (web_with button) (codes "<svg/>") ≡ err invalid
unfolding runs
handler_refused = refl

outside : has_outside_url (codes "url ( #a)") ≡ true
unfolding runs
outside = refl

address_taken :
    parse_icon (web_with circle) (codes "https://a/b.png") ≡ ok (codes "https://a/b.png")
unfolding runs
address_taken = refl

parse_icon-IsIcon_example : IsIcon (web_with circle) (codes "data:image/svg+xml;base64,AAAA")
parse_icon-IsIcon_example =
    parse_icon-IsIcon (web_with circle) (codes " <svg/>") (codes "data:image/svg+xml;base64,AAAA")
      drawing_taken

abbrev editor : Editor
editor = record {
  value = [];
  draft = [];
  filename = [];
  problem = none;
  reading = true;
  blocked = true;
  revision = 1;
}

abbrev task : Task
task = record { current = 1; name = codes "a.png" }

finished :
    (finish (web_with circle) task unprocessed (some (codes "https://a")) editor).value
    ≡ codes "https://a"
unfolding runs
finished = refl
