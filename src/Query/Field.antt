-- ===== src/Query/Field.antt =====
-- `PyFieldInfo` of src/query.rs, `pg_type` and the format codes of src/extended.rs.
use pywire.Base.{
  ℕ, ◌≡◌, refl, ◌∙◌, ◌⊎◌, not, ◌||◌, Option, none, some, List, [], ◌∷◌, arith, String, ◌==◌,
  if◌then◌else◌, Result, ok, err, replicate,
}

pub record PyFieldInfo : Type 0 where
  pub name : String
  pub type_id : ℕ
  pub format : ℕ

abbrev pub bad_format : String
bad_format = "format must be 0 (text) or 1 (binary)"

-- `PyFieldInfo::new`.
unfoldable pub new : String → ℕ → ℕ → Result String PyFieldInfo
new name type_id format =
    if not (format == 0 || format == 1)
    then err bad_format
    else ok (record { name = name; type_id = type_id; format = format })

-- A type of `postgres_types`: its oid, name and schema. `from_oid` is the crate's table of built-in
-- types, and `oid_name` its caller's `format!("oid{}", oid)`.
pub record PgType : Type 0 where
  pub oid : ℕ
  pub name : String
  pub schema : String

pub record Types : Type 0 where
  pub from_oid : ℕ → Option PgType
  pub unknown : PgType
  pub oid_name : ℕ → String

-- The table gives a type with the oid that was asked for.
abbrev pub IsTable : Types → Type 0
IsTable types = (oid : ℕ) (t : PgType) → types.from_oid oid ≡ some t → t.oid ≡ oid

pub data FieldFormat : Type 0 where
  text binary : FieldFormat

-- `FieldInfo` of pgwire, as `PgFieldInfo::new` fills it; table and column are empty.
pub record FieldInfo : Type 0 where
  pub name : String
  pub datatype : PgType
  pub format : FieldFormat

module _ (types : Types) where
  -- `unwrap_or_else(|| Type::new(format!("oid{oid}"), oid, Kind::Simple, "pg_catalog"))`
  abbrev pub or_placeholder : ℕ → Option PgType → PgType
  or_placeholder oid (some t) = t
  or_placeholder oid none = record { oid = oid; name = types.oid_name oid; schema = "pg_catalog" }

  -- `pg_type` of src/extended.rs.
  unfoldable pub pg_type : ℕ → PgType
  pg_type oid = if oid == 0 then types.unknown else or_placeholder oid (types.from_oid oid)

  -- `From<PyFieldInfo> for PgFieldInfo`.
  unfoldable pub into_pg : PyFieldInfo → FieldInfo
  into_pg f = record {
    name = f.name;
    datatype = or_placeholder f.type_id (types.from_oid f.type_id);
    format = if f.format == 1 then FieldFormat.binary else FieldFormat.text;
  }

  or_placeholder-oid :
      (oid : ℕ) (found : Option PgType)
      → ((t : PgType) → found ≡ some t → t.oid ≡ oid)
      → (or_placeholder oid found).oid ≡ oid
  or_placeholder-oid oid none h = refl
  or_placeholder-oid oid (some t) h = h t refl

  -- A column that Python could build reaches the wire with the name, the oid and the format that it
  -- was given, whether or not the oid is built in: a custom type is never rewritten.
  pub into_pg-new :
      (name : String) (type_id format : ℕ) (f : PyFieldInfo)
      → IsTable types
      → new name type_id format ≡ ok f
      → ((into_pg f).name ≡ name)
        × ((into_pg f).datatype.oid ≡ type_id)
        × (((into_pg f).format ≡ FieldFormat.binary) × (format ≡ 1)
            ⊎ ((into_pg f).format ≡ FieldFormat.text) × (format ≡ 0))
  unfolding into_pg new
  into_pg-new name type_id format f table h = (
    ground arith,
    or_placeholder-oid f.type_id (types.from_oid f.type_id) (table f.type_id) ∙ ground arith,
    ground arith,
  )

-- `Format` of pgwire.
pub data Format : Type 0 where
  unified_text unified_binary : Format
  individual : List ℕ → Format

-- `format_codes` of src/extended.rs.
unfoldable pub format_codes : Format → ℕ → List ℕ
format_codes unified_text len = replicate len 0
format_codes unified_binary len = replicate len 1
format_codes (individual codes) len = codes

-- `result_format_codes` of src/extended.rs.
unfoldable pub result_format_codes : Format → List ℕ
result_format_codes (individual codes) = codes
result_format_codes unified_binary = 1 ∷ []
result_format_codes unified_text = []
