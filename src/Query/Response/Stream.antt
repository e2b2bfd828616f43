-- ===== src/Query/Response/Stream.antt =====
-- The rows of `PyResponse::stream` in src/query.rs: pulled from a Python iterator, one at a time.
use pywire.Base.{
  ◌≡◌, refl, sym, ap, ◌∙◌, Bool, true, false, Option, none, some, List, [], ◌∷◌, ◌++◌, map, ok, err,
}
use pywire.Error.Classes.{PyErr}
use pywire.Error.PgWire.{PgWireResult}
use pywire.Error.Boundary.{py_err_to_pywire}
use pywire.Query.Row.{Cell, DataRow, encode_data_row}
use pywire.Query.Response.{Py}

-- How one `__anext__` ends: the call or the reading of its value is refused, the coroutine raises, or
-- there is a row. `stops` says of what is raised whether it is a `StopAsyncIteration`.
pub data Anext : Type 0 where
  refused : PyErr → Anext
  raised : (stops : Bool) → PyErr → Anext
  unreadable : PyErr → Anext
  row : List Cell → Anext

abbrev pub Item : Type 0
Item = PgWireResult DataRow

-- The closure of `stream::unfold`, behind `let rows = rows?`: an item and the next state, or the end.
unfoldable pub pull : Py → Anext → Option (Item × Option Py)
unfolding encode_data_row
pull rows (row cells) = some (ok (encode_data_row cells), some rows)
pull rows (unreadable e) = some (err (py_err_to_pywire e), none)
pull rows (raised true e) = none
pull rows (raised false e) = some (err (py_err_to_pywire e), none)
pull rows (refused e) = some (err (py_err_to_pywire e), none)

-- `stream::unfold` over what the iterator answers to one call after the other.
unfoldable pub items : Option Py → List Anext → List Item
unfolding pull
items none answers = []
items (some rows) [] = []
items (some rows) (a ∷ answers) = elim (pull rows a) [
  | none ↦ []
  | some (item, next) ↦ item ∷ items next answers
]

-- The answers that are no row.
abbrev pub EndsWith : Anext → List Item → Type 0
EndsWith (row cells) ending = ⊥
EndsWith (raised true e) ending = ending ≡ []
EndsWith (raised false e) ending = ending ≡ err (py_err_to_pywire e) ∷ []
EndsWith (refused e) ending = ending ≡ err (py_err_to_pywire e) ∷ []
EndsWith (unreadable e) ending = ending ≡ err (py_err_to_pywire e) ∷ []

items-end :
    (rows : Py) (last : Anext) (after : List Anext) (ending : List Item)
    → EndsWith last ending
    → items (some rows) (last ∷ after) ≡ ending
unfolding items
items-end rows (row cells) after ending h = absurd h
items-end rows (raised true e) after ending h = sym h
items-end rows (raised false e) after ending h = sym h
items-end rows (refused e) after ending h = sym h
items-end rows (unreadable e) after ending h = sym h

items_row :
    (rows : Py) (c : List Cell) (answers : List Anext)
    → items (some rows) (row c ∷ answers) ≡ ok (encode_data_row c) ∷ items (some rows) answers
unfolding items
items_row rows c answers = refl

-- An iterator that gives rows and then something else is read to that point and no further: the
-- stream has the rows, encoded as those of a `Query` response are, in their order; then nothing, if
-- the iterator stopped, and otherwise one error, the last item, whatever the iterator would answer
-- after it.
pub items-rows :
    (rows : Py) (cells : List (List Cell)) (last : Anext) (after : List Anext) (ending : List Item)
    → EndsWith last ending
    → items (some rows) (map row cells ++ (last ∷ after))
      ≡ map (λ c. ok (encode_data_row c)) cells ++ ending
items-rows rows [] last after ending h = items-end rows last after ending h
items-rows rows (c ∷ cells) last after ending h =
    items_row rows c (map row cells ++ (last ∷ after))
    ∙ ap (λ r. ok (encode_data_row c) ∷ r) (items-rows rows cells last after ending h)
