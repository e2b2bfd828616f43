-- ===== src/Query/Row/Decode.antt =====
-- How a client of the PostgreSQL protocol reads the body that src/query.rs writes.
use pywire.Base.{
  ℕ, zero, suc, ◌+◌, ◌*◌, ◌/◌, ◌%◌, ◌^◌, ◌<◌, ◌≤◌, ◌≡◌, refl, ap, ◌∙◌, Option, none, some, List, [],
  ◌∷◌, ◌++◌, arith, true, false, length, take, drop, take-append, drop-append, length-append, All,
  leb, ◌==◌, if◌then◌else◌,
}
use pywire.Query.Row.{Cell, put_i32, minus_one, encode_cell, encode_cells, encode_data_row}

abbrev prepend : Cell → Option (List Cell) → Option (List Cell)
prepend cell none = none
prepend cell (some cells) = some (cell ∷ cells)

-- `count` cells: each a length of four bytes, -1 for NULL, and then so many bytes. `none` where the
-- body ends too early or too late.
unfoldable pub decode_cells : ℕ → List ℕ → Option (List Cell)
decode_cells zero [] = some []
decode_cells zero (b ∷ body) = none
decode_cells (suc count) (a ∷ b ∷ c ∷ d ∷ body) =
    let n = a * 2 ^ 24 + b * 2 ^ 16 + c * 2 ^ 8 + d in
    let null = prepend none (decode_cells count body) in
    let value = prepend (some (take n body)) (decode_cells count (drop n body)) in
    if n == minus_one then null else if leb n (length body) then value else none
decode_cells (suc count) body = none

-- The length of each value fits an `i32`, as PostgreSQL requires.
abbrev pub Fits : Cell → Type 0
Fits none = Unit
Fits (some bytes) = length bytes < 2 ^ 31

decode_null :
    (count : ℕ) (body : List ℕ)
    → decode_cells (suc count) (put_i32 minus_one ++ body) ≡ prepend none (decode_cells count body)
unfolding decode_cells put_i32
decode_null count body = refl

decode_value :
    (count : ℕ) (bytes body : List ℕ)
    → length bytes < 2 ^ 31
    → decode_cells (suc count) (put_i32 (length bytes % 2 ^ 32) ++ (bytes ++ body))
      ≡ prepend (some bytes) (decode_cells count body)
unfolding decode_cells put_i32
decode_value count bytes body h =
    let n = length bytes % 2 ^ 32 in
    let read : (n / 2 ^ 24 % 256) * 2 ^ 24
          + (n / 2 ^ 16 % 256) * 2 ^ 16
          + (n / 2 ^ 8 % 256) * 2 ^ 8
          + n % 256
        ≡ length bytes =
      omega arith in
    let not_null : (length bytes == minus_one) ≡ false = ground arith in
    let enough : leb (length bytes) (length (bytes ++ body)) ≡ true =
      ground (arith, length-append bytes body) in
    rw (read, not_null, enough, take-append bytes body, drop-append bytes body) refl

decode-encode_cell :
    (count : ℕ) (cell : Cell) (body : List ℕ)
    → Fits cell
    → decode_cells (suc count) (encode_cell cell ++ body) ≡ prepend cell (decode_cells count body)
unfolding encode_cell
decode-encode_cell count none body h = decode_null count body
decode-encode_cell count (some bytes) body h = decode_value count bytes body h

decode-encode_cells :
    (cells : List Cell)
    → All Fits cells
    → decode_cells (length cells) (encode_cells cells) ≡ some cells
unfolding encode_cells
decode-encode_cells [] h = unfold decode_cells in refl
decode-encode_cells (cell ∷ cells) h =
    decode-encode_cell (length cells) cell (encode_cells cells) h.0
    ∙ ap (prepend cell) (decode-encode_cells cells h.1)

-- A client that reads the body by the announced number of fields gets back every cell, NULL or
-- value, empty values included, as long as a row has fewer than 2^15 cells and a value fewer than
-- 2^31 bytes; that is what the protocol can announce.
pub decode_cells-encode_data_row :
    (cells : List Cell)
    → All Fits cells
    → length cells < 2 ^ 15
    → decode_cells (encode_data_row cells).field_count (encode_data_row cells).body ≡ some cells
unfolding encode_data_row
decode_cells-encode_data_row cells fits short =
    let e : length cells % 2 ^ 16 ≡ length cells = omega arith in
    rw e (decode-encode_cells cells fits)

-- Beyond that the announced number is wrong: a row of 2^16 cells or more announces fewer fields than
-- it has.
pub field_count_wraps :
    (cells : List Cell) → 2 ^ 16 ≤ length cells → (encode_data_row cells).field_count < length cells
unfolding encode_data_row
field_count_wraps cells long = omega arith
