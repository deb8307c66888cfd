-- ===== src/Extensions/Context/Laws.antt =====
-- The context of one request is that of its own log lines and of nothing else.
use package.text.Mathlib.Text.{◌==◌ as str_eq}
use djaskt_trading_app.Prelude.{
  String, ◌≡◌, ◌⊎◌, refl, true, false, Bool-cases, Option-cases, inl, inr, Option, none, some,
}
use djaskt_trading_app.Prelude.Action.{Result, ok, err}
use djaskt_trading_app.Brokerage.Json.{text, object, end, field}
use djaskt_trading_app.Extensions.Context.{
  HttpRequest, RequestLogMetadata, metadata_of, or_else, trace_id_of, Variable, Handler,
  reset_and_finish, call_sync,
}

-- A header that is missing or empty.
abbrev pub IsUnset : Option String → Type 0
IsUnset o = (o ≡ none) ⊎ ((a : String) × (o ≡ some a) × (str_eq a "" ≡ true))

-- The trace id of a request: a header's, or else the fresh UUID.
pub data IsTraceId (r : HttpRequest) (uuid : String) : String → Type 0 where
  request_id :
      (a : String) → r.header "X-Request-ID" ≡ some a → str_eq a "" ≡ false → IsTraceId r uuid a
  correlation_id :
      (a : String)
      → IsUnset (r.header "X-Request-ID")
      → r.header "X-Correlation-ID" ≡ some a
      → str_eq a "" ≡ false
      → IsTraceId r uuid a
  fresh :
      IsUnset (r.header "X-Request-ID")
      → IsUnset (r.header "X-Correlation-ID")
      → IsTraceId r uuid uuid

-- The log context of a request with a trace id, block by block.
pub record IsContext (r : HttpRequest) (trace_id : String) (m : RequestLogMetadata) : Type 0 where
  pub trace : m.trace ≡ object (field "id" (text trace_id) end)
  pub transaction : m.transaction ≡ object (field "id" (text trace_id) end)
  pub http :
      m.http
      ≡ object (
          field "request"
            (object (field "method" (text r.method) (field "id" (text trace_id) end)))
            end)
  pub url : m.url ≡ object (field "path" (text r.path) end)

trace_id_of-IsTraceId : (r : HttpRequest) (uuid : String) → IsTraceId r uuid (trace_id_of r uuid)
unfolding trace_id_of
trace_id_of-IsTraceId r uuid =
    let correlated : IsUnset (r.header "X-Request-ID")
        → IsTraceId r uuid (or_else (r.header "X-Correlation-ID") uuid) =
      λ u. elim (Option-cases (r.header "X-Correlation-ID")) [
        | inl n ↦ rw n (fresh u (inl n))
        | inr (a, e) ↦ elim (Bool-cases (str_eq a "")) [
          | inl b ↦ rw (e, b) (fresh u (inr (a, e, b)))
          | inr b ↦ rw (e, b) (correlation_id a u e b)
        ]
      ] in
    elim (Option-cases (r.header "X-Request-ID")) [
      | inl n ↦ rw n (correlated (inl n))
      | inr (a, e) ↦ elim (Bool-cases (str_eq a "")) [
        | inl b ↦ rw (e, b) (correlated (inr (a, e, b)))
        | inr b ↦ rw (e, b) (request_id a e b)
      ]
    ]

module _ {W E Response : Type 0} (set_header : String → String → Response → Response)
    (get_response : Handler W E Response) where
  -- How the code under the middleware ended, and how the middleware then does.
  pub data Ends (trace_id : String) (token : Variable)
      : Result E Response × Variable × W → Result E Response × Variable × W → Type 0 where
    answered :
        (response : Response) (v : Variable) (w : W)
        → Ends trace_id token
            (ok response, v, w)
            (ok (set_header "X-Request-ID" trace_id response), token, w)
    failed : (e : E) (v : Variable) (w : W) → Ends trace_id token (err e, v, w) (err e, token, w)

  -- A request through the middleware: from the world `w`, one run of the code under it, on the request with
  -- its trace id and in the context of the request.
  pub record IsTraced (uuid : String) (r : HttpRequest) (token : Variable) (w : W)
      (x : Result E Response × Variable × W) : Type 0 where
    pub trace_id : String
    pub is_trace_id : IsTraceId r uuid trace_id
    pub metadata : RequestLogMetadata
    pub is_context : IsContext r trace_id metadata
    pub ends :
        Ends trace_id token
          (get_response (record r { trace_id = some trace_id }) (some metadata) w)
          x

  reset-Ends :
      (trace_id : String) (token : Variable) (x : Result E Response × Variable × W)
      → Ends trace_id token x (reset_and_finish set_header trace_id token x)
  unfolding reset_and_finish
  reset-Ends trace_id token (ok response, v, w) = answered response v w
  reset-Ends trace_id token (err e, v, w) = failed e v w

  -- The code under the middleware runs once, from the world as it is, on the request with a trace id (its
  -- X-Request-ID, or else its X-Correlation-ID, or else the fresh UUID), and with that id, the method and the
  -- path as its log context. Afterwards the world is as that run has left it, the context is the one from
  -- before, whatever the code set it to and whether or not it raised, and an answer carries the trace id.
  pub call_sync-IsTraced :
      (uuid : String) (r : HttpRequest) (token : Variable) (w : W)
      → IsTraced uuid r token w (call_sync set_header get_response uuid r token w)
  unfolding call_sync
  call_sync-IsTraced uuid r token w = record {
    trace_id = trace_id_of r uuid;
    is_trace_id = trace_id_of-IsTraceId r uuid;
    metadata = metadata_of r (trace_id_of r uuid);
    is_context = record { trace = refl; transaction = refl; http = refl; url = refl };
    ends = reset-Ends (trace_id_of r uuid) token _;
  }
