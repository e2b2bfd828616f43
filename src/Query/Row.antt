-- ===== src/Query/Row.antt =====
-- `encode_data_row` of src/query.rs: the body of a DataRow.
pub mod Capacity
pub mod Decode
use pywire.Base.{ℕ, ◌+◌, ◌-◌, ◌/◌, ◌%◌, ◌^◌, Option, none, some, List, [], ◌∷◌, ◌++◌, length}

abbrev pub Cell : Type 0
Cell = Option (List ℕ)

-- `DataRow` of pgwire: the body, and the number of fields as the bit pattern of an `i16`.
pub record DataRow : Type 0 where
  pub body : List ℕ
  pub field_count : ℕ

-- `put_i32`: big endian.
unfoldable pub put_i32 : ℕ → List ℕ
put_i32 n = (n / 2 ^ 24 % 256) ∷ (n / 2 ^ 16 % 256) ∷ (n / 2 ^ 8 % 256) ∷ (n % 256) ∷ []

-- The bit pattern of `-1i32`.
abbrev pub minus_one : ℕ
minus_one = 2 ^ 32 - 1

-- `bytes.len() as i32` keeps the low 32 bits.
unfoldable pub encode_cell : Cell → List ℕ
unfolding put_i32
encode_cell none = put_i32 minus_one
encode_cell (some bytes) = put_i32 (length bytes % 2 ^ 32) ++ bytes

unfoldable pub encode_cells : List Cell → List ℕ
unfolding encode_cell
encode_cells [] = []
encode_cells (cell ∷ cells) = encode_cell cell ++ encode_cells cells

-- What `encode_data_row` reserves: `4 + c.as_ref().map_or(0, |v| v.len())`, summed.
unfoldable pub cell_size : Cell → ℕ
cell_size none = 4
cell_size (some bytes) = 4 + length bytes

unfoldable pub capacity : List Cell → ℕ
unfolding cell_size
capacity [] = 0
capacity (cell ∷ cells) = cell_size cell + capacity cells

-- `encode_data_row`; `cells.len() as i16` keeps the low 16 bits.
unfoldable pub encode_data_row : List Cell → DataRow
unfolding encode_cells
encode_data_row cells = record { body = encode_cells cells; field_count = length cells % 2 ^ 16 }
