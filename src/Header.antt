-- ===== src/Header.antt =====
-- `http.Header` of the standard library: the values of each key, in the order in which the map is visited.
use wadjit.Prelude.{String, List, [], ◌∷◌, ◌++◌, map}

abbrev pub HttpHeader : Type 0
HttpHeader = List (String × List String)

-- One line for each value, as the loops over a header visit them.
unfoldable pub header_lines : HttpHeader → List (String × String)
header_lines [] = []
header_lines ((key, values) ∷ h) = map (λ value. (key, value)) values ++ header_lines h
