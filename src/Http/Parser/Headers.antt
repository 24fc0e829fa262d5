-- ===== src/Http/Parser/Headers.antt =====
-- `HttpParser::GetHeaderValue` of Src/Common/Http/HttpParser.cpp.
use game_project_demo.Common.{◌≡◌, refl, false, List, [], ◌∷◌, ◌++◌, All, Bytes, map}
use game_project_demo.Util.{string_equal, to_lower}
use game_project_demo.Util.Texts.{string_equal_iff}
use game_project_demo.Http.Parser.{HttpHeader, get_header_value}

abbrev pub Differs : Bytes → HttpHeader → Type 0
Differs key h = string_equal (h.0) key ≡ false

-- The value of a header is that of the first one whose name is the key up to case, whatever
-- stands in front and behind; without such a header it is empty.
pub get_header_value_lem :
    (key name val : Bytes) (before after : List HttpHeader)
    → All (Differs key) before
    → map to_lower name ≡ map to_lower key
    → (get_header_value key (before ++ (name, val) ∷ after) ≡ val)
      × (get_header_value key before ≡ [])
unfolding get_header_value
get_header_value_lem key name val [] after h e = (rw ((string_equal_iff name key).1 e) refl, refl)
get_header_value_lem key name val ((n, v) ∷ before) after (d, h) e =
    let rest = get_header_value_lem key name val before after h e in (rw d (rest.0), rw d (rest.1))
