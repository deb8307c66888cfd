-- ===== src/Extensions/Logger.antt =====
-- extensions/logger.py: `ECSContextFilter`, and `ECSDeepJsonFormatter.process_log_record`. A log record is its fields.
-- Python's methods of texts are parameters.
pub mod Laws
use package.text.Mathlib.Text.{◌==◌ as str_eq}
use djaskt_trading_app.Prelude.{
  String, ◌||◌, Bool, true, false, not, Option, none, some, List, [], ◌∷◌, if◌then◌else◌,
}
use djaskt_trading_app.Prelude.Int.{pos}
use djaskt_trading_app.Prelude.Rows.{any}
use djaskt_trading_app.Brokerage.Json.{
  Json, null, text, number, object, Fields, end, field, get, put, is_given,
}
use djaskt_trading_app.Extensions.Context.{RequestLogMetadata}

-- `filter`: the request's metadata become attributes of the record.
unfoldable pub attach : Option RequestLogMetadata → Fields → Fields
attach none r = r
attach (some m) r =
    put "url" m.url (put "http" m.http (put "transaction" m.transaction (put "trace" m.trace r)))

-- `d.get(key, default)`
abbrev pub get_or : Option Json → Json → Json
get_or none v = v
get_or (some w) v = w

-- The fields whose key passes a test.
unfoldable pub keep : (String → Bool) → Fields → Fields
keep p end = end
keep p (field k v d) = let rest = keep p d in if p k then field k v rest else rest

abbrev pub is_one_of : List String → String → Bool
is_one_of keys k = any (str_eq k) keys

abbrev pub ecs_blocks : List String
ecs_blocks = "trace" ∷ "transaction" ∷ "http" ∷ "url" ∷ "error" ∷ []

abbrev pub standard_keys : List String
standard_keys =
    "asctime" ∷ "message" ∷ "levelname" ∷ "name" ∷ "filename" ∷ "lineno" ∷ "funcName" ∷ "threadName"
    ∷ "exc_info" ∷ "taskName" ∷ []

-- One turn of the loop over the blocks, on what it adds to the ECS record.
abbrev pub moved : String → Option Json → Fields → Fields
moved block none ecs = ecs
moved block (some v) ecs = put block v ecs

-- The loop as a whole.
unfoldable pub with_blocks : List String → Fields → Fields → Fields
with_blocks [] r ecs = ecs
with_blocks (block ∷ blocks) r ecs = with_blocks blocks r (moved block (get block r) ecs)

-- What neither the blocks nor the standard keys took.
abbrev pub is_custom : String → Bool
is_custom k = not (is_one_of ecs_blocks k || is_one_of standard_keys k)

abbrev pub with_extra : Fields → Fields → Fields
with_extra end ecs = ecs
with_extra (field k v d) ecs = put "extra" (object (field k v d)) ecs

-- `lower()` of the level's name, the error's type from the last line of a traceback, and `str(...)`.
module _ (lower : Json → Json) (error_type : Json → Json) (str : Option Json → String)
    (service_info : Fields) (host_name : String) where
  abbrev pub log_block : Fields → Fields
  log_block r = field "level" (lower (get_or (get "levelname" r) (text "INFO"))) (
      field "logger" (get_or (get "name" r) (text "")) (
        field "origin"
          (object (
            field "file"
              (object (
                field "name" (get_or (get "filename" r) (text "")) (
                  field "line"
                    (get_or (get "lineno" r) (number (record { coeff = pos 0; places = 0 }))) end)))
              (field "function" (get_or (get "funcName" r) (text "")) end)))
          end))

  abbrev pub basic : Fields → Fields
  basic r = field "@timestamp" (get_or (get "asctime" r) (text "")) (
      field "message" (get_or (get "message" r) (text "")) (
        field "log" (object (log_block r)) (
          field "service" (object service_info) (
            field "host" (object (field "name" (text host_name) end)) (
              field "thread" (object (field "name" (get_or (get "threadName" r) (text "")) end))
                end)))))

  abbrev pub error_block : Fields → Fields
  error_block r = field "type" (error_type (get_or (get "exc_info" r) null)) (
      field "message" (text (str (get "message" r)))
        (field "stack_trace" (get_or (get "exc_info" r) null) end))

  abbrev pub with_error : Fields → Fields → Fields
  with_error r ecs =
      if is_given (get "exc_info" r) then put "error" (object (error_block r)) ecs else ecs

  unfoldable pub process_log_record : Fields → Fields
  process_log_record r =
      with_extra (keep is_custom r) (with_blocks ecs_blocks r (with_error r (basic r)))
