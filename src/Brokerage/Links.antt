-- ===== src/Brokerage/Links.antt =====
-- brokerage/api/router.py: the endpoints of a user's links to brokerages.
pub mod Laws
pub mod Relink
pub mod Overlap
use djaskt_trading_app.Prelude.{
  ℕ, String, ◌==◌, ◌&&◌, ◌||◌, Bool, true, false, Option, none, some, List, [], ◌∷◌, if◌then◌else◌,
}
use djaskt_trading_app.Prelude.Rows.{find, filter, exclude, count, any}
use djaskt_trading_app.Prelude.Action.{
  Result, ok, err, Action, pure, gets, raise_if, modify, if_some, ◌>>=◌, ◌>>◌,
}
use djaskt_trading_app.Brokerage.Models.{
  BrokerError, uncaught, Brokerage, UserBrokerageLink, Tables, for_user, is_active_named, is_link,
}
use djaskt_trading_app.Brokerage.Cache.{SessionRedis, cached}
use djaskt_trading_app.Brokerage.Strategy.{CachedSession}
use djaskt_trading_app.Brokerage.Schemas.{
  UserBrokerageLinkCreate, UserBrokerageLinkResponse, brokerage_must_be_known, Answer, ok_200,
  created_201, no_content_204, not_found_404, conflict_409, unprocessable_422,
}

-- The primary key, and the constraint `unique_user_brokerage_link`.
abbrev pub collides : UserBrokerageLink → UserBrokerageLink → Bool
collides new l = l.id == new.id || l.user == new.user && l.brokerage == new.brokerage

-- `UserBrokerageLink.objects.create`
unfoldable pub insert_link : UserBrokerageLink → Action Tables BrokerError UserBrokerageLink
insert_link link tables =
    if any (collides link) tables.links
    then (err uncaught, tables)
    else (ok link, record tables { links = link ∷ tables.links })

abbrev pub created : Brokerage → UserBrokerageLink → Answer UserBrokerageLinkResponse
created brokerage link = created_201 (record {
  id = link.id;
  brokerage_name = brokerage.name;
  user_brokerage_data = link.user_brokerage_data;
  is_connected = false;
})

-- `uuid4()` is an argument.
module _ (user : ℕ) (uuid : ℕ) where
  abbrev pub link_of : UserBrokerageLinkCreate → Brokerage → UserBrokerageLink
  link_of payload brokerage = record {
    id = uuid;
    user = user;
    brokerage = brokerage.id;
    user_brokerage_data = payload.user_brokerage_data;
  }

  unfoldable pub create_new :
      UserBrokerageLinkCreate
      → Brokerage
      → Action Tables BrokerError (Answer UserBrokerageLinkResponse)
  create_new payload brokerage = do
    link ← insert_link (link_of payload brokerage)
    pure (created brokerage link)

  unfoldable pub create_of :
      UserBrokerageLinkCreate
      → Brokerage
      → Action Tables BrokerError (Answer UserBrokerageLinkResponse)
  create_of payload brokerage = do
    already_linked ← gets (λ tables. any (is_link user brokerage) tables.links)
    if already_linked then pure conflict_409 else create_new payload brokerage

  unfoldable pub create_known :
      UserBrokerageLinkCreate → Action Tables BrokerError (Answer UserBrokerageLinkResponse)
  create_known payload = do
    brokerage ← gets (λ tables. find (is_active_named payload.brokerage_name) tables.brokerages)
    if_some brokerage (create_of payload) (pure not_found_404)

  unfoldable pub create_link :
      UserBrokerageLinkCreate → Action Tables BrokerError (Answer UserBrokerageLinkResponse)
  create_link payload =
      if brokerage_must_be_known payload.brokerage_name
      then create_known payload
      else pure unprocessable_422

abbrev pub is_some : {A : Type 0} → Option A → Bool
is_some none = false
is_some (some a) = true

abbrev pub has_id : ℕ → Brokerage → Bool
has_id id b = b.id == id

-- `select_related("brokerage")` joins each link with its brokerage.
module _ (redis : SessionRedis) (now : ℕ) (user : ℕ) where
  abbrev pub link_response : redis.State → UserBrokerageLink → Brokerage → UserBrokerageLinkResponse
  link_response s link brokerage = record {
    id = link.id;
    brokerage_name = brokerage.name;
    user_brokerage_data = link.user_brokerage_data;
    is_connected = is_some (cached redis now user brokerage.name s);
  }

  abbrev pub joined :
      redis.State
      → UserBrokerageLink
      → Option Brokerage
      → List UserBrokerageLinkResponse
      → List UserBrokerageLinkResponse
  joined s link none rest = rest
  joined s link (some b) rest = link_response s link b ∷ rest

  unfoldable pub responses :
      redis.State → List Brokerage → List UserBrokerageLink → List UserBrokerageLinkResponse
  responses s brokerages [] = []
  responses s brokerages (link ∷ links) =
      joined s link (find (has_id link.brokerage) brokerages) (responses s brokerages links)

  unfoldable pub list_links : Tables → redis.State → List UserBrokerageLinkResponse
  list_links tables s = responses s tables.brokerages (filter (for_user user) tables.links)

abbrev pub is_own : ℕ → ℕ → UserBrokerageLink → Bool
is_own user link_id l = for_user user l && l.id == link_id

unfoldable pub delete_link : ℕ → ℕ → Tables → Answer (Unit {0}) × Tables
delete_link user link_id tables = (
  if count (is_own user link_id) tables.links == 0 then not_found_404 else no_content_204,
  record tables { links = exclude (is_own user link_id) tables.links },
)
