-- ===== src/Extensions/Context.antt =====
-- middlewares/request_log_context.py: `RequestLogContextMiddleware`, with the variable of extensions/log_context.py. The
-- code under the middleware is a parameter: it may set the variable too, and may raise. A task or thread has a variable
-- of its own, so one request is followed at a time; the asynchronous path is the synchronous one with an `await`.
pub mod Laws
use package.text.Mathlib.Text.{◌==◌ as str_eq}
use djaskt_trading_app.Prelude.{String, Bool, true, false, Option, none, some, if◌then◌else◌}
use djaskt_trading_app.Prelude.Action.{Result, ok, err}
use djaskt_trading_app.Brokerage.Json.{Json, text, object, Fields, end, field}

pub record HttpRequest : Type 0 where
  pub header : String → Option String
  pub method : String
  pub path : String
  -- The attribute that the middleware sets.
  pub trace_id : Option String

pub record RequestLogMetadata : Type 0 where
  pub trace : Json
  pub transaction : Json
  pub http : Json
  pub url : Json

abbrev id_block : String → Fields
id_block trace_id = field "id" (text trace_id) end

abbrev pub metadata_of : HttpRequest → String → RequestLogMetadata
metadata_of r trace_id = record {
  trace = object (id_block trace_id);
  transaction = object (id_block trace_id);
  http = object (field "request" (object (field "method" (text r.method) (id_block trace_id))) end);
  url = object (field "path" (text r.path) end);
}

-- `a or b` on an optional text.
abbrev pub or_else : Option String → String → String
or_else none b = b
or_else (some a) b = if str_eq a "" then b else a

-- With a fresh UUID.
unfoldable pub trace_id_of : HttpRequest → String → String
trace_id_of r uuid = or_else (r.header "X-Request-ID") (or_else (r.header "X-Correlation-ID") uuid)

abbrev pub Variable : Type 0
Variable = Option RequestLogMetadata

-- The code under the middleware, with the errors and the responses that it can end in, and what it changes
-- of the world.
abbrev pub Handler : Type 0 → Type 0 → Type 0 → Type 0
Handler W E Response = HttpRequest → Variable → W → Result E Response × Variable × W

-- How a header of a response is set.
module _ {W E Response : Type 0} (set_header : String → String → Response → Response) where
  -- The `finally`, and `_finish`.
  unfoldable pub reset_and_finish :
      String → Variable → Result E Response × Variable × W → Result E Response × Variable × W
  reset_and_finish trace_id token (ok response, v, w) =
      (ok (set_header "X-Request-ID" trace_id response), token, w)
  reset_and_finish trace_id token (err e, v, w) = (err e, token, w)

  -- `_start`, then the code under the middleware.
  unfoldable pub call_sync :
      Handler W E Response → String → HttpRequest → Variable → W → Result E Response × Variable × W
  call_sync get_response uuid r token w =
      let trace_id = trace_id_of r uuid in
      reset_and_finish trace_id token
        (get_response (record r { trace_id = some trace_id }) (some (metadata_of r trace_id)) w)
