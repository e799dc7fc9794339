-- ===== src/Detection/Content.antt =====
-- What the detectors read off a path and an Accept header: `_is_subresource` and `_is_html_request`
-- of detection/llm_heuristic.py, and `_is_static_path` of detection/path_sweep.py. A text is its code
-- points.
use anti_bot_gw.Common.{
  Bool, false, ◌&&◌, ◌||◌, not, none, some, List, [], ◌∷◌, ◌==◌, nat_eq, list_eq, string_eq,
}
use anti_bot_gw.Common.Dict.{mem}
use anti_bot_gw.Challenge.Decimal.{Text}
use anti_bot_gw.Challenge.Pow.{is_nil}
use anti_bot_gw.Endpoint.Rules.{lower, contains}
use anti_bot_gw.Identity.{rsplit}
use anti_bot_gw.Detection.Graphql.{path_base}

-- `_SUBRES_EXTS`
abbrev subres_exts : List Text
subres_exts =
    (b'.' ∷ b'c' ∷ b's' ∷ b's' ∷ [])
    ∷ (b'.' ∷ b'j' ∷ b's' ∷ [])
    ∷ (b'.' ∷ b'm' ∷ b'j' ∷ b's' ∷ [])
    ∷ (b'.' ∷ b'c' ∷ b'j' ∷ b's' ∷ [])
    ∷ (b'.' ∷ b'w' ∷ b'o' ∷ b'f' ∷ b'f' ∷ [])
    ∷ (b'.' ∷ b'w' ∷ b'o' ∷ b'f' ∷ b'f' ∷ b'2' ∷ [])
    ∷ (b'.' ∷ b't' ∷ b't' ∷ b'f' ∷ [])
    ∷ (b'.' ∷ b'o' ∷ b't' ∷ b'f' ∷ [])
    ∷ (b'.' ∷ b'e' ∷ b'o' ∷ b't' ∷ [])
    ∷ (b'.' ∷ b'p' ∷ b'n' ∷ b'g' ∷ [])
    ∷ (b'.' ∷ b'j' ∷ b'p' ∷ b'g' ∷ [])
    ∷ (b'.' ∷ b'j' ∷ b'p' ∷ b'e' ∷ b'g' ∷ [])
    ∷ (b'.' ∷ b'g' ∷ b'i' ∷ b'f' ∷ [])
    ∷ (b'.' ∷ b's' ∷ b'v' ∷ b'g' ∷ [])
    ∷ (b'.' ∷ b'i' ∷ b'c' ∷ b'o' ∷ [])
    ∷ (b'.' ∷ b'w' ∷ b'e' ∷ b'b' ∷ b'p' ∷ [])
    ∷ (b'.' ∷ b'a' ∷ b'v' ∷ b'i' ∷ b'f' ∷ [])
    ∷ (b'.' ∷ b'm' ∷ b'p' ∷ b'4' ∷ [])
    ∷ (b'.' ∷ b'w' ∷ b'e' ∷ b'b' ∷ b'm' ∷ [])
    ∷ []

-- the other extensions that are not HTML
abbrev text_exts : List Text
text_exts =
    (b'.' ∷ b'x' ∷ b'm' ∷ b'l' ∷ [])
    ∷ (b'.' ∷ b't' ∷ b'x' ∷ b't' ∷ [])
    ∷ (b'.' ∷ b'c' ∷ b's' ∷ b'v' ∷ [])
    ∷ (b'.' ∷ b'p' ∷ b'd' ∷ b'f' ∷ [])
    ∷ []

-- `_STATIC_EXTS`
abbrev static_exts : List Text
static_exts =
    (b'.' ∷ b'c' ∷ b's' ∷ b's' ∷ [])
    ∷ (b'.' ∷ b'j' ∷ b's' ∷ [])
    ∷ (b'.' ∷ b'm' ∷ b'j' ∷ b's' ∷ [])
    ∷ (b'.' ∷ b't' ∷ b's' ∷ [])
    ∷ (b'.' ∷ b'm' ∷ b'a' ∷ b'p' ∷ [])
    ∷ (b'.' ∷ b'p' ∷ b'n' ∷ b'g' ∷ [])
    ∷ (b'.' ∷ b'j' ∷ b'p' ∷ b'g' ∷ [])
    ∷ (b'.' ∷ b'j' ∷ b'p' ∷ b'e' ∷ b'g' ∷ [])
    ∷ (b'.' ∷ b'g' ∷ b'i' ∷ b'f' ∷ [])
    ∷ (b'.' ∷ b's' ∷ b'v' ∷ b'g' ∷ [])
    ∷ (b'.' ∷ b'w' ∷ b'e' ∷ b'b' ∷ b'p' ∷ [])
    ∷ (b'.' ∷ b'a' ∷ b'v' ∷ b'i' ∷ b'f' ∷ [])
    ∷ (b'.' ∷ b'i' ∷ b'c' ∷ b'o' ∷ [])
    ∷ (b'.' ∷ b'w' ∷ b'o' ∷ b'f' ∷ b'f' ∷ [])
    ∷ (b'.' ∷ b'w' ∷ b'o' ∷ b'f' ∷ b'f' ∷ b'2' ∷ [])
    ∷ (b'.' ∷ b't' ∷ b't' ∷ b'f' ∷ [])
    ∷ (b'.' ∷ b'o' ∷ b't' ∷ b'f' ∷ [])
    ∷ (b'.' ∷ b'e' ∷ b'o' ∷ b't' ∷ [])
    ∷ (b'.' ∷ b'm' ∷ b'p' ∷ b'4' ∷ [])
    ∷ (b'.' ∷ b'w' ∷ b'e' ∷ b'b' ∷ b'm' ∷ [])
    ∷ (b'.' ∷ b'm' ∷ b'p' ∷ b'3' ∷ [])
    ∷ (b'.' ∷ b'o' ∷ b'g' ∷ b'g' ∷ [])
    ∷ (b'.' ∷ b'p' ∷ b'd' ∷ b'f' ∷ [])
    ∷ (b'.' ∷ b'z' ∷ b'i' ∷ b'p' ∷ [])
    ∷ []

abbrev application_json : Text
application_json =
    b'a' ∷ b'p' ∷ b'p' ∷ b'l' ∷ b'i' ∷ b'c' ∷ b'a' ∷ b't' ∷ b'i' ∷ b'o' ∷ b'n' ∷ b'/' ∷ b'j' ∷ b's'
    ∷ b'o' ∷ b'n' ∷ []

abbrev text_html : Text
text_html = b't' ∷ b'e' ∷ b'x' ∷ b't' ∷ b'/' ∷ b'h' ∷ b't' ∷ b'm' ∷ b'l' ∷ []

abbrev any_type : Text
any_type = b'*' ∷ b'/' ∷ b'*' ∷ []

-- `"." + s.rsplit(".", 1)[-1] if "." in s else ""`, of the path without its query
unfoldable pub extension_of : Text → Text
extension_of path = elim (rsplit (path_base (lower path))) [ none ↦ [] | some p ↦ b'.' ∷ p.1 ]

unfoldable pub is_subresource : Text → Text → Bool
unfolding extension_of
is_subresource path accept =
    mem (extension_of path) subres_exts
    || contains application_json accept && not (contains text_html accept)

unfoldable pub is_html_request : Text → Text → Text → Bool
unfolding extension_of
is_html_request method accept path =
    method == (b'G' ∷ b'E' ∷ b'T' ∷ [])
    && not (mem (extension_of path) subres_exts || mem (extension_of path) text_exts)
    && (contains text_html accept || is_nil accept || contains any_type accept)

unfoldable pub is_static_path : Text → Bool
is_static_path path = elim (rsplit path) [
  | none ↦ false
  | some p ↦ mem (lower (b'.' ∷ p.1)) static_exts
]
