-- ===== src/Tests/Query.antt =====
-- Witnesses for the theorems on src/query.rs and src/errors.rs.
use pywire.Base.{
  length, ◌<◌, ◌^◌, map, not, true, false, ◌&&◌, ◌++◌, ◌≡◌, refl, none, some, List, [], ◌∷◌, arith,
  String, ok,
}
use pywire.Error.PgWire.{PgWireError, portal_not_found}
use pywire.Error.Classes.{PyErr, other}
use pywire.Error.Boundary.{pywire_to_py_err, py_err_to_pywire, to_string}
use pywire.Error.RoundTrip.{rebuilt, rebuilds, py_err_to_pywire-pywire_to_py_err}
use pywire.Scram.Crypto.{IsBytes}
use pywire.Query.Row.{Cell, encode_data_row, capacity}
use pywire.Query.Row.Capacity.{encode_data_row-size}
use pywire.Query.Row.Decode.{decode_cells, decode_cells-encode_data_row}
use pywire.Error.Classes.{error, protocol_error, auth_error}
use pywire.Error.Hierarchy.{catches, is_io, catches-pywire_to_py_err}
use pywire.Query.Response.Stream.{raised, row, items, items-rows}

abbrev display : PgWireError → String
display e = "Portal not found: p"

py_err_to_pywire-pywire_to_py_err_example :
    py_err_to_pywire (pywire_to_py_err display (portal_not_found "p"))
    ≡ rebuilt
        (rebuilds (portal_not_found "p"))
        (portal_not_found "p")
        (pywire_to_py_err display (portal_not_found "p")).text
        (to_string (pywire_to_py_err display (portal_not_found "p")))
py_err_to_pywire-pywire_to_py_err_example =
    py_err_to_pywire-pywire_to_py_err display (portal_not_found "p")

abbrev bad_value : PyErr
bad_value = record { class = other "ValueError"; text = "bad" }

abbrev cells : List Cell
cells = none ∷ some [] ∷ some (1 ∷ 2 ∷ []) ∷ []

encode_data_row-size_example :
    (length (encode_data_row cells).body ≡ capacity cells)
    × IsBytes (encode_data_row cells).body
    × ((encode_data_row cells).field_count < 2 ^ 16)
encode_data_row-size_example =
    encode_data_row-size cells (tt, (tt, ((omega arith, (omega arith, tt)), tt)))

decode_cells-encode_data_row_example :
    decode_cells (encode_data_row cells).field_count (encode_data_row cells).body ≡ some cells
decode_cells-encode_data_row_example =
    decode_cells-encode_data_row cells (tt, (omega arith, (omega arith, tt))) (omega arith)

-- The clauses that catch a `PortalNotFound`.
portal_error_caught :
    (catches error (pywire_to_py_err display (portal_not_found "p")).class
      ≡ not (is_io (portal_not_found "p")))
    × ((catches protocol_error (pywire_to_py_err display (portal_not_found "p")).class
          && catches auth_error (pywire_to_py_err display (portal_not_found "p")).class)
        ≡ false)
portal_error_caught = catches-pywire_to_py_err display (portal_not_found "p")

items-rows_example :
    items (some 3) (map row (cells ∷ cells ∷ []) ++ (raised true bad_value ∷ row cells ∷ []))
    ≡ map (λ c. ok (encode_data_row c)) (cells ∷ cells ∷ []) ++ []
items-rows_example =
    items-rows 3 (cells ∷ cells ∷ []) (raised true bad_value) (row cells ∷ []) [] refl
