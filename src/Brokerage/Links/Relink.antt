-- ===== src/Brokerage/Links/Relink.antt =====
-- A brokerage that is unlinked and linked again while a session is cached.
use djaskt_trading_app.Prelude.{
  ℕ, String, ◌≡◌, refl, arith, ◌==◌, Bool, true, false, some, List, [], ◌∷◌,
}
use djaskt_trading_app.Prelude.Rows.{
  find, filter, exclude, count, any, any-eq-count, count-exclude_unique, find-passes,
}
use djaskt_trading_app.Prelude.Action.{ok}
use djaskt_trading_app.Brokerage.Json.{Fields}
use djaskt_trading_app.Brokerage.Models.{Brokerage, UserBrokerageLink, Tables, for_user, is_link}
use djaskt_trading_app.Brokerage.Strategy.{CachedSession, Request, Reply}
use djaskt_trading_app.Brokerage.Cache.{SessionRedis, cached}
use djaskt_trading_app.Brokerage.Orchestrator.Laws.{Linked}
use djaskt_trading_app.Brokerage.Schemas.{UserBrokerageLinkResponse, created_201}
use djaskt_trading_app.Brokerage.Links.{
  collides, insert_link, link_of, create_new, create_of, create_known, create_link, is_own,
  delete_link, has_id, responses, list_links,
}
use djaskt_trading_app.Brokerage.Links.Laws.{AtMostOne}

abbrev has_link_id : ℕ → UserBrokerageLink → Bool
has_link_id id l = l.id == id

-- A row with a fresh id collides with none if its user has no link to its brokerage.
no_collision :
    (new : UserBrokerageLink) (user : ℕ) (b : Brokerage) (links : List UserBrokerageLink)
    → any (has_link_id new.id) links ≡ false
    → is_link user b new ≡ true
    → count (is_link user b) links ≡ 0
    → any (collides new) links ≡ false
no_collision new user b [] f i c = refl
no_collision new user b (l ∷ links) f i c = ground (arith, no_collision new user b links)

module _ (redis : SessionRedis) (http : Request → Reply) (tables : Tables) (now user uuid : ℕ)
    (name : String) (b : Brokerage) (link : UserBrokerageLink)
    (l : Linked redis http tables now user name b link) (u : AtMostOne tables) where
  none_left : count (is_link user b) (exclude (is_own user link.id) tables.links) ≡ 0
  unfolding AtMostOne
  none_left =
      let own : is_own user link.id link ≡ true =
        let i = find-passes (is_link user b) tables.links link l.linked in ground arith in
      count-exclude_unique (is_link user b) (is_own user link.id) tables.links link (u user b)
        l.linked own

  -- Where no user has two links to one brokerage, and the links' and the brokerages' ids are told
  -- apart: a user who unlinks an active brokerage while a session is cached, and links it again, is
  -- answered that he is not connected; the list of his links says that he is.
  pub relinked_is_connected :
      (c : CachedSession) (fields : Fields) (s : redis.State)
      → cached redis now user b.name s ≡ some c
      → find (has_id b.id) tables.brokerages ≡ some b
      → any (has_link_id uuid) (exclude (is_own user link.id) tables.links) ≡ false
      → (tables' : Tables) × (rest : List UserBrokerageLinkResponse) × (create_link user uuid
            (record { brokerage_name = name; user_brokerage_data = fields })
            (delete_link user link.id tables).1
          ≡ (
            ok (
                created_201 (record {
                  id = uuid;
                  brokerage_name = b.name;
                  user_brokerage_data = fields;
                  is_connected = false;
                })),
            tables',
          ))
        × (list_links redis now user tables' s
            ≡ record {
              id = uuid;
              brokerage_name = b.name;
              user_brokerage_data = fields;
              is_connected = true;
            }
              ∷ rest)
  unfolding create_link create_known create_of create_new insert_link delete_link list_links
      responses
  relinked_is_connected c fields s h k f =
      let new =
        link_of user uuid (record { brokerage_name = name; user_brokerage_data = fields }) b in
      let own : is_link user b new ≡ true = ground arith in
      let n =
        no_collision new user b (exclude (is_own user link.id) tables.links) f own none_left in
      let a = any-eq-count (is_link user b) (exclude (is_own user link.id) tables.links) in
      let me : (user == user) ≡ true = ground arith in
      (
        record tables { links = new ∷ exclude (is_own user link.id) tables.links },
        responses redis now user s tables.brokerages
            (filter (for_user user) (exclude (is_own user link.id) tables.links)),
        rw (l.registered, l.active, a, none_left, n) refl,
        rw (me, k, h) refl,
      )
