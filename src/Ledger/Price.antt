-- ===== src/Ledger/Price.antt =====
-- ledger/services/price_service.py.
-- What lies outside: Redis, by the reply that it gives to a key; `json.loads` and the constructor
-- `Decimal(text)`, as parsers that are given; `str.upper`.
use Prim.Native.String.{◌++◌ as append}
use djaskt_trading_app.Prelude.{
  String, ◌≡◌, refl, true, false, Option, none, some, arith, Option-cases, inl, inr,
}
use djaskt_trading_app.Prelude.Int.{pos, ◌≤ℤ◌}
use djaskt_trading_app.Prelude.Action.{Result, ok, err}
use djaskt_trading_app.Decimal.{
  Decimal, Number, finite, infinity, neg_infinity, nan, number_is_nonpositive, is_nonpositive,
}
use djaskt_trading_app.Ledger.Models.{Error, price_unavailable, invalid_operation}

-- What `payload["price"]` can be; a number has the text that `str` gives, and the text of any
-- value of another kind is no number.
pub data Field : Type 0 where
  number text : String → Field
  other : Field

-- What `json.loads` returns, as far as the code reads it: an object with its field "price", or a
-- value that does not take a text index.
pub data Payload : Type 0 where
  object : Option Field → Payload
  not_object : Payload

-- The reply to `GET key`: `redis.RedisError`, `None`, or the text.
pub data Reply : Type 0 where
  unreachable missing : Reply
  present : String → Reply

pub record Parsers : Type 0 where
  -- `None` is `json.JSONDecodeError`
  pub json_loads : String → Option Payload
  -- `None` is `decimal.InvalidOperation`
  pub decimal : String → Option Number
  pub upper : String → String

-- `PRICE_KEY_TEMPLATE.format(ticker=ticker.upper())`
unfoldable pub price_key : Parsers → String → String
price_key ps ticker = append "TICKER:" (append (ps.upper ticker) ":PRICE")

-- `Decimal(str(payload["price"]))`: `KeyError`, `TypeError` and `InvalidOperation` are `none`.
unfoldable pub price_of_payload : Parsers → Payload → Option Number
price_of_payload ps not_object = none
price_of_payload ps (object none) = none
price_of_payload ps (object (some (number t))) = ps.decimal t
price_of_payload ps (object (some (text t))) = ps.decimal t
price_of_payload ps (object (some other)) = none

-- The check `price <= 0`; a NaN raises `InvalidOperation`, outside the `try`.
unfoldable pub checked_price : Number → Result Error Number
checked_price n = elim (number_is_nonpositive n) [
  | none ↦ err invalid_operation
  | some true ↦ err price_unavailable
  | some false ↦ ok n
]

unfoldable pub parsed_price : Parsers → Option Payload → Result Error Number
unfolding price_of_payload checked_price
parsed_price ps none = err price_unavailable
parsed_price ps (some payload) = elim (price_of_payload ps payload) [
  | none ↦ err price_unavailable
  | some n ↦ checked_price n
]

unfoldable pub read_reply : Parsers → Reply → Result Error Number
unfolding parsed_price
read_reply ps unreachable = err price_unavailable
read_reply ps missing = err price_unavailable
read_reply ps (present raw) = parsed_price ps (ps.json_loads raw)

unfoldable pub get_live_price : Parsers → (String → Reply) → String → Result Error Number
unfolding read_reply price_key
get_live_price ps redis ticker = read_reply ps (redis (price_key ps ticker))

-- The prices that a trade may use: positive, and no NaN.
pub data IsLive : Number → Type 0 where
  live_finite : (d : Decimal) → pos 1 ≤ℤ d.coeff → IsLive (finite d)
  live_infinity : IsLive infinity

checked_price-IsLive : (n : Number) {m : Number} → checked_price n ≡ ok m → (m ≡ n) × IsLive n
unfolding checked_price number_is_nonpositive is_nonpositive
checked_price-IsLive (finite d) e = (ground arith, live_finite d (ground arith))
checked_price-IsLive infinity e = (ground arith, live_infinity)
checked_price-IsLive neg_infinity e = cc
checked_price-IsLive nan e = cc

checked_price-eq-ok :
    (ps : Parsers) (payload : Payload) {n : Number}
    → parsed_price ps (some payload) ≡ ok n
    → IsLive n × (price_of_payload ps payload ≡ some n)
unfolding parsed_price
checked_price-eq-ok ps payload e = elim (Option-cases (price_of_payload ps payload)) [
  | inl bad ↦ cc (rw (bad, parsed_price) at e)
  | inr (m, p) ↦
      let (same, good) = checked_price-IsLive m (rw (p, parsed_price) at e) in
      (rw same good, rw (p, same))
]

-- What a price was read from: the text under the key of the upper-case ticker, an object with a price.
pub record IsQuoted (ps : Parsers) (reply : Reply) (n : Number) : Type 0 where
  pub raw : String
  pub payload : Payload
  pub answered : reply ≡ present raw
  pub parsed : ps.json_loads raw ≡ some payload
  pub priced : price_of_payload ps payload ≡ some n

read_reply-eq-ok :
    (ps : Parsers) (reply : Reply) {n : Number}
    → read_reply ps reply ≡ ok n
    → IsLive n × IsQuoted ps reply n
unfolding read_reply
read_reply-eq-ok ps unreachable e = cc
read_reply-eq-ok ps missing e = cc
read_reply-eq-ok ps (present raw) e = elim (Option-cases (ps.json_loads raw)) [
  | inl bad ↦ cc (rw (bad, read_reply, parsed_price) at e)
  | inr (payload, p) ↦
      let (good, priced) = checked_price-eq-ok ps payload (rw (p, read_reply) at e) in
      (good, record { raw = raw; payload = payload; answered = refl; parsed = p; priced = priced })
]

-- A price is returned only where the key of the upper-case ticker is present, its text is a JSON
-- object whose field "price" is a decimal, and that decimal is positive or an infinity.
pub get_live_price-IsLive :
    (ps : Parsers) (redis : String → Reply) (ticker : String) (n : Number)
    → get_live_price ps redis ticker ≡ ok n
    → IsLive n × IsQuoted ps (redis (price_key ps ticker)) n
unfolding get_live_price
get_live_price-IsLive ps redis ticker n e = read_reply-eq-ok ps (redis (price_key ps ticker)) e
