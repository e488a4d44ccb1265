-- ===== src/Records/Values.antt =====
-- src/database/table-types.ts and rowToJson of src/database/data-repository.ts: what the driver answers, and
-- the JSON that a client sees of it.
use micro_jbase.Base.{
  ◌==◌, Bool, true, false, not, Option, none, some, List, [], ◌∷◌, if◌then◌else◌, Result, ok, err,
  guard, ◌>>=◌, ◌>>◌, Text, lit, text_eq, includes, concat, Number, int, pos, is_finite,
}
use micro_jbase.Errors.{app_error, conflict, internal_error, Thrown, Field, DetailsField}
use micro_jbase.Platform.{Platform}
use micro_jbase.Tables.{normalize_type}

-- A value of the driver: a date with its toISOString(), if that does not throw; a Buffer; any other value with
-- its truth value, such as undefined or a bigint.
mutual
  pub data Raw : Type 0 where
    null buffer : Raw
    bool : Bool → Raw
    num : Number → Raw
    str : Text → Raw
    date : Option Text → Raw
    array : RawItems → Raw
    object : RawFields → Raw
    other : Bool → Raw

  pub data RawItems : Type 0 where
    nil : RawItems
    cons : Raw → RawItems → RawItems

  pub data RawFields : Type 0 where
    end : RawFields
    field : Text → Raw → RawFields → RawFields

mutual
  pub data JsonValue : Type 0 where
    null : JsonValue
    bool : Bool → JsonValue
    num : Number → JsonValue
    str : Text → JsonValue
    array : JsonItems → JsonValue
    object : JsonFields → JsonValue

  pub data JsonItems : Type 0 where
    nil : JsonItems
    cons : JsonValue → JsonItems → JsonItems

  pub data JsonFields : Type 0 where
    end : JsonFields
    field : Text → JsonValue → JsonFields → JsonFields

abbrev pub not_finite : Thrown
not_finite =
    Thrown.app
      (app_error conflict (lit "Database value cannot be represented as a finite number") 409)

abbrev pub not_json : Thrown
not_json = Thrown.app (app_error conflict (lit "Database value cannot be represented as JSON") 409)

-- the RangeError of toISOString
abbrev pub invalid_time : Thrown
invalid_time = Thrown.object (record {
  code = Field.absent;
  sql_state = Field.absent;
  message = Field.string (lit "Invalid time value");
  status = Field.absent;
  details = DetailsField.absent;
  is_error = true;
  constraint = Field.absent;
  printed = lit "RangeError: Invalid time value";
})

abbrev iso_of : Option Text → Result Thrown JsonValue
iso_of none = err invalid_time
iso_of (some t) = ok (JsonValue.str t)

abbrev finite : Number → Result Thrown JsonValue
finite n = guard (is_finite n) not_finite >> ok (JsonValue.num n)

abbrev is_zero : Number → Bool
is_zero (int (pos n)) = n == 0
is_zero _ = false

-- asJson
unfoldable mutual
  pub as_json : Raw → Result Thrown JsonValue
  as_json Raw.null = ok JsonValue.null
  as_json Raw.buffer = err not_json
  as_json (Raw.bool b) = ok (JsonValue.bool b)
  as_json (Raw.num n) = ok (JsonValue.num n)
  as_json (Raw.str t) = ok (JsonValue.str t)
  as_json (Raw.date t) = err not_json
  as_json (Raw.array items) = as_json_items items >>= λ js. ok (JsonValue.array js)
  as_json (Raw.object fields) = as_json_fields fields >>= λ js. ok (JsonValue.object js)
  as_json (Raw.other b) = err not_json

  pub as_json_items : RawItems → Result Thrown JsonItems
  as_json_items RawItems.nil = ok JsonItems.nil
  as_json_items (RawItems.cons r rs) =
      as_json r >>= λ j. as_json_items rs >>= λ js. ok (JsonItems.cons j js)

  pub as_json_fields : RawFields → Result Thrown JsonFields
  as_json_fields RawFields.end = ok JsonFields.end
  as_json_fields (RawFields.field k r rs) =
      as_json r >>= λ j. as_json_fields rs >>= λ js. ok (JsonFields.field k j js)

-- the values of SUPPORTED_TYPES
pub data Converter : Type 0 where
  string boolean number iso_string json : Converter

abbrev pub string_types : List Text
string_types =
    lit "uuid"
    ∷ lit "text"
    ∷ lit "varchar"
    ∷ lit "character varying"
    ∷ lit "char"
    ∷ lit "character"
    ∷ lit "bigint"
    ∷ lit "int8"
    ∷ lit "numeric"
    ∷ lit "decimal"
    ∷ []

abbrev pub number_types : List Text
number_types =
    lit "smallint"
    ∷ lit "integer"
    ∷ lit "int"
    ∷ lit "int4"
    ∷ lit "real"
    ∷ lit "float4"
    ∷ lit "double precision"
    ∷ lit "float8"
    ∷ []

abbrev pub time_types : List Text
time_types =
    lit "date"
    ∷ lit "timestamp without time zone"
    ∷ lit "timestamp"
    ∷ lit "timestamp with time zone"
    ∷ lit "timestamptz"
    ∷ []

-- SUPPORTED_TYPES.get(name)
unfoldable pub converter_of : Text → Option Converter
converter_of name =
    if includes string_types name
    then some string
    else if includes (lit "boolean" ∷ lit "bool" ∷ []) name
    then some boolean
    else if includes number_types name
    then some number
    else if includes time_types name
    then some iso_string
    else if includes (lit "json" ∷ lit "jsonb" ∷ []) name
    then some json
    else none

abbrev type_of : List (Text × Text) → Text → Option Text
type_of [] key = none
type_of ((column, data_type) ∷ types) key =
    if text_eq column key then some data_type else type_of types key

-- `print` is String(value)
module _ (platform : Platform) (print : Raw → Text) where
  -- asString and asIsoString
  unfoldable pub as_string : Raw → Result Thrown JsonValue
  as_string Raw.null = ok (JsonValue.str [])
  as_string (Raw.str t) = ok (JsonValue.str t)
  as_string (Raw.date t) = iso_of t
  as_string r = ok (JsonValue.str (print r))

  unfoldable pub as_boolean : Raw → Bool
  as_boolean (Raw.bool b) = b
  as_boolean Raw.null = false
  as_boolean (Raw.num Number.nan) = true
  as_boolean (Raw.num n) = not (is_zero n)
  as_boolean (Raw.str t) = text_eq (platform.to_lower t) (lit "true")
  as_boolean (Raw.other b) = b
  as_boolean _ = true

  unfoldable pub as_number : Raw → Result Thrown JsonValue
  as_number (Raw.num n) = finite n
  as_number Raw.null = ok (JsonValue.num (int (pos 0)))
  as_number (Raw.str t) = finite (platform.to_number t)
  as_number _ = err not_finite

  unfoldable pub convert : Converter → Raw → Result Thrown JsonValue
  convert string r = as_string r
  convert boolean r = ok (JsonValue.bool (as_boolean r))
  convert number r = as_number r
  convert iso_string r = as_string r
  convert json r = as_json r

  abbrev converted : Text → Text → Option Converter → Raw → Result Thrown JsonValue
  converted key data_type none r = err (
      Thrown.app (
        app_error conflict
          (concat (lit "Unsupported database type " ∷ data_type ∷ lit " for column " ∷ key ∷ []))
          409))
  converted key data_type (some c) r = convert c r

  abbrev of_type : Text → Option Text → Raw → Result Thrown JsonValue
  of_type key none r = err (
      Thrown.app
        (app_error internal_error (concat (lit "No type metadata for column " ∷ key ∷ [])) 500))
  of_type key (some data_type) r =
      converted key data_type (converter_of (normalize_type platform data_type)) r

  unfoldable pub cell_to_json : List (Text × Text) → Text → Raw → Result Thrown JsonValue
  cell_to_json types key Raw.null = ok JsonValue.null
  cell_to_json types key r = of_type key (type_of types key) r

  -- rowToJson
  unfoldable pub row_to_json :
      List Text → List (Text × Text) → List (Text × Raw) → Result Thrown (List (Text × JsonValue))
  row_to_json readable types [] = ok []
  row_to_json readable types ((key, value) ∷ row) =
      let rest = row_to_json readable types row in
      if not (includes readable key)
      then rest
      else (cell_to_json types key value >>= λ j. rest >>= λ js. ok ((key, j) ∷ js))
