-- ===== src/Brokerage/Links/Laws.antt =====
-- Links of a user: one to a brokerage at most, and none that another user can touch.
use djaskt_trading_app.Prelude.{
  ℕ, ◌≡◌, refl, arith, ◌≤◌, ◌==◌, true, false, not, Bool-cases, Option-cases, inl, inr, none, List,
  [], ◌∷◌, if◌then◌else◌,
}
use djaskt_trading_app.Prelude.Rows.{
  find, filter, count, any, filter-exclude_ne, find-exclude, count-exclude, any-eq-count,
}
use djaskt_trading_app.Brokerage.Models.{
  Brokerage, UserBrokerageLink, Tables, for_user, is_active_named, is_link,
}
use djaskt_trading_app.Brokerage.Schemas.{
  UserBrokerageLinkCreate, Answer, no_content_204, not_found_404,
}
use djaskt_trading_app.Brokerage.Orchestrator.{is_registered}
use djaskt_trading_app.Brokerage.Links.{
  collides, insert_link, link_of, create_new, create_of, create_known, create_link, is_own,
  delete_link,
}

-- No user has two links to one brokerage.
unfoldable pub AtMostOne : Tables → Type 0
AtMostOne tables = (user : ℕ) (b : Brokerage) → count (is_link user b) tables.links ≤ 1

-- A link that collides with no row is the only one of its user to its brokerage.
free :
    (new : UserBrokerageLink) (user : ℕ) (b : Brokerage) (links : List UserBrokerageLink)
    → any (collides new) links ≡ false
    → is_link user b new ≡ true
    → count (is_link user b) links ≡ 0
free new user b [] h i = refl
free new user b (l ∷ links) h i = ground (arith, free new user b links)

insert_link-AtMostOne :
    (new : UserBrokerageLink) (tables : Tables)
    → AtMostOne tables
    → AtMostOne (insert_link new tables).1
unfolding insert_link AtMostOne
insert_link-AtMostOne new tables u = elim (Bool-cases (any (collides new) tables.links)) [
  | inl c ↦ rw c u
  | inr c ↦ rw c λ user b. elim (Bool-cases (is_link user b new)) [
    | inl i ↦ let z = free new user b tables.links c i in ground arith
    | inr i ↦ let k = u user b in ground arith
  ]
]

pub create_new-AtMostOne :
    (user uuid : ℕ) (payload : UserBrokerageLinkCreate) (b : Brokerage) (tables : Tables)
    → AtMostOne tables
    → AtMostOne (create_new user uuid payload b tables).1
unfolding create_new insert_link
create_new-AtMostOne user uuid payload b tables u =
    let v = insert_link-AtMostOne (link_of user uuid payload b) tables u in
    elim (Bool-cases (any (collides (link_of user uuid payload b)) tables.links)) [
      | inl c ↦ rw c u
      | inr c ↦ let v' = rw c at v in rw c v'
    ]

pub create_link-AtMostOne :
    (user uuid : ℕ) (payload : UserBrokerageLinkCreate) (tables : Tables)
    → AtMostOne tables
    → AtMostOne (create_link user uuid payload tables).1
unfolding create_link create_known create_of
create_link-AtMostOne user uuid payload tables u =
    elim (Bool-cases (is_registered payload.brokerage_name)) [
      | inr r ↦ rw r u
      | inl r ↦
          elim (Option-cases (find (is_active_named payload.brokerage_name) tables.brokerages)) [
            | inl f ↦ rw (r, f) u
            | inr (b, f) ↦ elim (Bool-cases (any (is_link user b) tables.links)) [
              | inl a ↦ rw (r, f, a) u
              | inr a ↦ rw (r, f, a) (create_new-AtMostOne user uuid payload b tables u)
            ]
          ]
    ]

pub delete_link-AtMostOne :
    (user link_id : ℕ) (tables : Tables)
    → AtMostOne tables
    → AtMostOne (delete_link user link_id tables).1
unfolding delete_link AtMostOne
delete_link-AtMostOne user link_id tables u other b =
    let k = u other b in
    let h = count-exclude (is_link other b) (is_own user link_id) tables.links in omega arith

-- Creating a link and deleting one, by any user, keep it true that no user has two links to one brokerage.
pub links-AtMostOne :
    (user id : ℕ) (payload : UserBrokerageLinkCreate) (tables : Tables)
    → AtMostOne tables
    → AtMostOne (create_link user id payload tables).1 × AtMostOne (delete_link user id tables).1
links-AtMostOne user id payload tables u =
    (create_link-AtMostOne user id payload tables u, delete_link-AtMostOne user id tables u)

not_own :
    (user link_id other : ℕ) (l : UserBrokerageLink)
    → (other == user) ≡ false
    → for_user other l ≡ true
    → is_own user link_id l ≡ false
not_own user link_id other l n h = ground arith

deleted_answer :
    (n : ℕ)
    → Path
        (Answer (Unit {0}))
        (if n == 0 then not_found_404 else no_content_204)
        (if not (n == 0) then no_content_204 else not_found_404)
deleted_answer n = ground arith

-- A user who deletes a link by its id gets 204 if it is one of his own and 404 if not; afterwards he has no such
-- link, and the links of every other user are the ones they were.
pub delete_link_only_own :
    (user link_id other : ℕ) (tables : Tables)
    → (other == user) ≡ false
    → ((delete_link user link_id tables).0
        ≡ (if any (is_own user link_id) tables.links then no_content_204 else not_found_404))
      × (find (is_own user link_id) (delete_link user link_id tables).1.links ≡ none)
      × (filter (for_user other) (delete_link user link_id tables).1.links
          ≡ filter (for_user other) tables.links)
unfolding delete_link
delete_link_only_own user link_id other tables n = (
  rw (any-eq-count (is_own user link_id) tables.links) (deleted_answer _),
  find-exclude _ _ tables.links (λ l h. h),
  filter-exclude_ne (for_user other) (is_own user link_id) tables.links
      (λ l h. not_own user link_id other l n h),
)
