-- ===== src/Query/Response/Convert.antt =====
-- `PyResponse::into_pg` of src/query.rs.
use pywire.Base.{
  ℕ, ◌≡◌, refl, Bool, true, false, Option, none, some, List, map, arith, String, str_eq_iff,
  Result-cases, ap, ok, inl, inr,
}
use pywire.Error.Info
use pywire.Error.Info.{ErrorInfo}
use pywire.Query.Field
use pywire.Query.Field.{PyFieldInfo, FieldInfo, Types}
use pywire.Query.Row.{DataRow, encode_data_row}
use pywire.Query.Response.{
  Py, TransactionEffect, start, end, PyResponse, empty, execution, query, stream, error, effect,
  execution_of,
}

-- `Tag` of pgwire: the command, and what `with_oid` and `with_rows` add.
pub record Tag : Type 0 where
  pub command : String
  pub oid : Option ℕ
  pub rows : Option ℕ

-- The rows of a `QueryResponse`: encoded at once, or pulled from a Python iterator.
pub data Rows : Type 0 where
  encoded : List DataRow → Rows
  pulled : Py → Rows

-- `Response` of pgwire.
pub data Response : Type 0 where
  empty_query : Response
  executed transaction_start transaction_end : Tag → Response
  rows : List FieldInfo → Rows → String → Response
  failed : ErrorInfo → Response

abbrev with_oid : Option ℕ → Tag → Tag
with_oid none tag = tag
with_oid (some oid) tag = record tag { oid = some oid }

abbrev with_rows : Option ℕ → Tag → Tag
with_rows none tag = tag
with_rows (some n) tag = record tag { rows = some n }

-- The `match transaction` of the `Execution` arm.
unfoldable pub completed : Option TransactionEffect → Tag → Response
completed none tag = executed tag
completed (some start) tag = transaction_start tag
completed (some end) tag = transaction_end tag

-- `PyResponse::into_pg`.
unfoldable pub into_pg : Types → PyResponse → Response
unfolding completed
into_pg types empty = empty_query
into_pg types (execution command oid n transaction) =
    let tag : Tag = record { command = command; oid = none; rows = none } in
    completed transaction (with_rows n (with_oid oid tag))
into_pg types (query fields cells tag) =
    rows (map (Field.into_pg types) fields) (encoded (map encode_data_row cells)) tag
into_pg types (stream fields iterator tag) =
    rows (map (Field.into_pg types) fields) (pulled iterator) tag
into_pg types (error info) = failed (Info.into_pg info)

-- `matches!(response, Response::TransactionEnd(_))`
unfoldable pub is_transaction_end : Response → Bool
is_transaction_end (transaction_end _) = true
is_transaction_end _ = false

with-tag_of :
    (command : String) (oid n : Option ℕ)
    → with_rows n (with_oid oid (record { command = command; oid = none; rows = none }))
      ≡ record { command = command; oid = oid; rows = n }
with-tag_of command none none = refl
with-tag_of command none (some n) = refl
with-tag_of command (some oid) none = refl
with-tag_of command (some oid) (some n) = refl

-- What the text of `transaction` asks for.
abbrev pub Asked : Option String → Option TransactionEffect → Type 0
Asked transaction none = transaction ≡ none
Asked transaction (some start) = transaction ≡ some "start"
Asked transaction (some end) = transaction ≡ some "end"

effect-Asked :
    (transaction : Option String) (t : Option TransactionEffect)
    → effect transaction ≡ ok t
    → Asked transaction t
unfolding effect
effect-Asked none none h = refl
effect-Asked none (some start) h = absurd (ground arith)
effect-Asked none (some end) h = absurd (ground arith)
effect-Asked (some value) none h = absurd (ground arith)
effect-Asked (some value) (some start) h = ground (arith, str_eq_iff value "start")
effect-Asked (some value) (some end) h = ground (arith, str_eq_iff value "end")

-- A command completion that a handler built is on the wire the start or the end of a transaction
-- exactly if the handler said so by the text "start" or "end", whatever the command is called, so
-- that a `ROLLBACK` to a savepoint ends none; and its tag carries the command, the oid and the row
-- count that were given. Any other text is refused.
pub into_pg-execution_of :
    (types : Types) (command : String) (oid n : Option ℕ) (transaction : Option String)
    (r : PyResponse)
    → execution_of command oid n transaction ≡ ok r
    → (t : Option TransactionEffect) × Asked transaction t
      × (into_pg types r ≡ completed t (record { command = command; oid = oid; rows = n }))
unfolding into_pg execution_of
into_pg-execution_of types command oid n transaction r h =
    elim (Result-cases (effect transaction)) [
      | inr (e, he) ↦ absurd (ground arith)
      | inl (t, ht) ↦ (t, effect-Asked transaction t ht, converted t (ground arith))
    ]
  where
    converted :
        (t : Option TransactionEffect)
        → r ≡ execution command oid n t
        → into_pg types r ≡ completed t (record { command = command; oid = oid; rows = n })
    converted t e = rw e (ap (completed t) (with-tag_of command oid n))
