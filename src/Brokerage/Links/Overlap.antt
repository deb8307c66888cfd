-- ===== src/Brokerage/Links/Overlap.antt =====
-- Requests for links that overlap: between the look-up of a link and its INSERT, other requests may have
-- made or deleted links.
use djaskt_trading_app.Prelude.{ℕ, ◌≡◌, refl, arith, true, List, [], ◌∷◌}
use djaskt_trading_app.Prelude.Rows.{any}
use djaskt_trading_app.Prelude.Action.{err}
use djaskt_trading_app.Brokerage.Models.{uncaught, Brokerage, UserBrokerageLink, Tables, is_link}
use djaskt_trading_app.Brokerage.Schemas.{UserBrokerageLinkCreate}
use djaskt_trading_app.Brokerage.Links.{
  collides, insert_link, link_of, create_new, create_link, delete_link,
}
use djaskt_trading_app.Brokerage.Links.Laws.{
  AtMostOne, create_new-AtMostOne, create_link-AtMostOne, delete_link-AtMostOne,
}

-- What changes the links: a whole request, or the INSERT of one whose look-up was at an earlier time.
pub data Edit : Type 0 where
  creates : (user uuid : ℕ) → UserBrokerageLinkCreate → Edit
  inserts : (user uuid : ℕ) → UserBrokerageLinkCreate → Brokerage → Edit
  deletes : (user link_id : ℕ) → Edit

unfoldable pub edit : Edit → Tables → Tables
edit (creates user uuid payload) tables = (create_link user uuid payload tables).1
edit (inserts user uuid payload brokerage) tables =
    (create_new user uuid payload brokerage tables).1
edit (deletes user link_id) tables = (delete_link user link_id tables).1

unfoldable pub edited : List Edit → Tables → Tables
edited [] tables = tables
edited (e ∷ es) tables = edited es (edit e tables)

edit-AtMostOne : (e : Edit) (tables : Tables) → AtMostOne tables → AtMostOne (edit e tables)
unfolding edit
edit-AtMostOne (creates user uuid payload) tables u =
    create_link-AtMostOne user uuid payload tables u
edit-AtMostOne (inserts user uuid payload b) tables u =
    create_new-AtMostOne user uuid payload b tables u
edit-AtMostOne (deletes user link_id) tables u = delete_link-AtMostOne user link_id tables u

-- Whatever links any users make and delete, in any order, requests whose look-up is out of date
-- included, no user ever has two links to one brokerage.
pub edited-AtMostOne :
    (es : List Edit) (tables : Tables) → AtMostOne tables → AtMostOne (edited es tables)
unfolding edited
edited-AtMostOne [] tables u = u
edited-AtMostOne (e ∷ es) tables u = edited-AtMostOne es (edit e tables) (edit-AtMostOne e tables u)

linked_collides :
    (new : UserBrokerageLink) (b : Brokerage) (links : List UserBrokerageLink)
    → new.brokerage ≡ b.id
    → any (is_link new.user b) links ≡ true
    → any (collides new) links ≡ true
linked_collides new b [] e h = h
linked_collides new b (l ∷ links) e h = ground (arith, linked_collides new b links)

-- A request that found no link, and whose user was linked to the brokerage before its INSERT, ends with
-- the database's error, not with 409, and changes nothing.
pub late_link_raises :
    (user uuid : ℕ) (payload : UserBrokerageLinkCreate) (b : Brokerage) (tables : Tables)
    → any (is_link user b) tables.links ≡ true
    → create_new user uuid payload b tables ≡ (err uncaught, tables)
unfolding create_new insert_link
late_link_raises user uuid payload b tables h =
    let c = linked_collides (link_of user uuid payload b) b tables.links refl h in rw c refl
