-- ===== src/Query/Row/Capacity.antt =====
-- The size of what `encode_data_row` of src/query.rs writes.
use pywire.Base.{
  ℕ, ◌^◌, ◌<◌, ◌≡◌, none, some, List, [], ◌∷◌, arith, length, length-append, All, All-append,
}
use pywire.Scram.Crypto.{IsBytes}
use pywire.Query.Row.{
  Cell, put_i32, minus_one, encode_cell, encode_cells, encode_data_row, cell_size, capacity,
}

-- The value of a cell consists of bytes.
abbrev pub OfBytes : Cell → Type 0
OfBytes none = Unit
OfBytes (some bytes) = IsBytes bytes

put_i32-IsBytes : (n : ℕ) → IsBytes (put_i32 n)
unfolding put_i32
put_i32-IsBytes n = (omega arith, (omega arith, (omega arith, (omega arith, tt))))

-- A cell takes the size that is reserved for it, in bytes.
encode_cell-size :
    (cell : Cell)
    → OfBytes cell
    → (length (encode_cell cell) ≡ cell_size cell) × IsBytes (encode_cell cell)
unfolding encode_cell cell_size put_i32
encode_cell-size none h = (omega arith, put_i32-IsBytes minus_one)
encode_cell-size (some bytes) h =
    (omega arith, All-append (λ b. b < 256) (put_i32 _) bytes (put_i32-IsBytes _) h)

encode_cells-size :
    (cells : List Cell)
    → All OfBytes cells
    → (length (encode_cells cells) ≡ capacity cells) × IsBytes (encode_cells cells)
unfolding encode_cells capacity
encode_cells-size [] h = (omega arith, tt)
encode_cells-size (cell ∷ cells) h =
    let (size, bytes) = encode_cell-size cell h.0 in
    let (rest_size, rest_bytes) = encode_cells-size cells h.1 in
    (
      omega (arith, length-append (encode_cell cell) (encode_cells cells), size, rest_size),
      All-append (λ b. b < 256) (encode_cell cell) (encode_cells cells) bytes rest_bytes,
    )

-- For cells of bytes, the body of the row fills the reserved capacity exactly, so that the buffer
-- neither grows nor stays short; it consists of bytes, and the announced number of fields fits 16
-- bits.
pub encode_data_row-size :
    (cells : List Cell)
    → All OfBytes cells
    → (length (encode_data_row cells).body ≡ capacity cells)
      × IsBytes (encode_data_row cells).body
      × ((encode_data_row cells).field_count < 2 ^ 16)
unfolding encode_data_row
encode_data_row-size cells h =
    let (size, bytes) = encode_cells-size cells h in (size, bytes, omega arith)
