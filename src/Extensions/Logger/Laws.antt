-- ===== src/Extensions/Logger/Laws.antt =====
-- No field of a log record is lost on its way into the ECS record.
use package.text.Mathlib.Text.{◌==◌ as str_eq}
use package.text.Mathlib.TextEquality.{eq_iff}
use djaskt_trading_app.Prelude.{
  String, ◌≡◌, refl, sym, ap, ◌∙◌, arith, Bool, true, false, Bool-cases, inl, inr, Option, none,
  some, List, [], ◌∷◌,
}
use djaskt_trading_app.Brokerage.Json.{Json, object, Fields, end, field, get, put}
use djaskt_trading_app.Extensions.Context.{RequestLogMetadata}
use djaskt_trading_app.Extensions.Logger.{
  attach, keep, is_one_of, ecs_blocks, moved, with_blocks, is_custom, with_extra,
  process_log_record,
}

get-put_same : (k : String) (v : Json) (d : Fields) → get k (put k v d) ≡ some v
unfolding get put
get-put_same k v end = let e : str_eq k k ≡ true = grind (arith, eq_iff k k) in rw e refl
get-put_same k v (field k' w d) = elim (Bool-cases (str_eq k' k)) [
  | inl e ↦ rw (e, e) refl
  | inr e ↦ rw (e, e, get-put_same k v d) refl
]

get-put_ne :
    (k k' : String) (v : Json) (d : Fields) → str_eq k' k ≡ false → get k (put k' v d) ≡ get k d
unfolding get put
get-put_ne k k' v end n = rw n refl
get-put_ne k k' v (field k₁ w d) n = elim (Bool-cases (str_eq k₁ k')) [
  | inl e ↦ let q = (eq_iff k₁ k').0 e in let m : str_eq k₁ k ≡ false = rw q n in rw (e, m) refl
  | inr e ↦ rw (e, get-put_ne k k' v d n) refl
]

moved_same :
    (k : String) (o : Option Json) (ecs : Fields) (v : Json)
    → o ≡ some v
    → get k (moved k o ecs) ≡ some v
moved_same k none ecs v e = cc
moved_same k (some w) ecs v e = get-put_same k w ecs ∙ e

moved_ne :
    (k block : String) (o : Option Json) (ecs : Fields)
    → str_eq block k ≡ false
    → get k (moved block o ecs) ≡ get k ecs
moved_ne k block none ecs n = refl
moved_ne k block (some w) ecs n = get-put_ne k block w ecs n

ne_sym : (a b : String) → str_eq a b ≡ false → str_eq b a ≡ false
ne_sym a b n = elim (Bool-cases (str_eq b a)) [
  | inr q ↦ q
  | inl q ↦ let p = (eq_iff b a).0 q in let e = (eq_iff a b).1 (sym p) in cc
]

-- Blocks that come later in the loop do not touch an earlier one.
with_blocks_ne :
    (k : String) (blocks : List String) (r ecs : Fields)
    → is_one_of blocks k ≡ false
    → get k (with_blocks blocks r ecs) ≡ get k ecs
unfolding with_blocks
with_blocks_ne k [] r ecs n = refl
with_blocks_ne k (b ∷ blocks) r ecs n =
    let m : str_eq k b ≡ false = ground arith in
    let rest : is_one_of blocks k ≡ false = ground arith in
    with_blocks_ne k blocks r (moved b (get b r) ecs) rest
    ∙ moved_ne k b (get b r) ecs (ne_sym k b m)

-- A block of the record is one of the ECS record.
with_blocks_same :
    (k : String) (v : Json) (blocks : List String) (r ecs : Fields)
    → is_one_of blocks k ≡ true
    → get k r ≡ some v
    → get k (with_blocks blocks r ecs) ≡ some v
unfolding with_blocks
with_blocks_same k v [] r ecs i e = cc
with_blocks_same k v (b ∷ blocks) r ecs i e = elim (Bool-cases (is_one_of blocks k)) [
  | inl j ↦ with_blocks_same k v blocks r (moved b (get b r) ecs) j e
  | inr j ↦
      let m : str_eq k b ≡ true = ground arith in
      let q = (eq_iff k b).0 m in
      let f : get b r ≡ some v = rw q at e in
      let t : get b (moved b (get b r) ecs) ≡ some v = moved_same b (get b r) ecs v f in
      with_blocks_ne k blocks r (moved b (get b r) ecs) j ∙ rw q t
]

with_extra_ne :
    (k : String) (x ecs : Fields) → str_eq "extra" k ≡ false → get k (with_extra x ecs) ≡ get k ecs
with_extra_ne k end ecs n = refl
with_extra_ne k (field k' v d) ecs n = get-put_ne k "extra" _ ecs n

extra_is_no_block : (k : String) → is_one_of ecs_blocks k ≡ true → str_eq "extra" k ≡ false
extra_is_no_block k i = elim (Bool-cases (str_eq "extra" k)) [
  | inr q ↦ q
  | inl q ↦
      let p = (eq_iff "extra" k).0 q in
      let i' : Path Bool false true = ap (is_one_of ecs_blocks) p ∙ i in cc
]

-- Where an ECS record holds a field.
pub data IsKept (k : String) (v : Json) (ecs : Fields) : Type 0 where
  as_block : get k ecs ≡ some v → IsKept k v ecs
  as_extra : (x : Fields) → get "extra" ecs ≡ some (object x) → get k x ≡ some v → IsKept k v ecs

-- The keys that the filter writes in a request.
abbrev pub context_keys : List String
context_keys = "trace" ∷ "transaction" ∷ "http" ∷ "url" ∷ []

module _ (lower : Json → Json) (error_type : Json → Json) (str : Option Json → String)
    (service_info : Fields) (host_name : String) where
  abbrev ecs_of : Fields → Fields
  ecs_of = process_log_record lower error_type str service_info host_name

  block_is_kept :
      (k : String) (v : Json) (r : Fields)
      → get k r ≡ some v
      → is_one_of ecs_blocks k ≡ true
      → get k (ecs_of r) ≡ some v
  unfolding process_log_record
  block_is_kept k v r e b =
      with_extra_ne k (keep is_custom r) _ (extra_is_no_block k b)
      ∙ with_blocks_same k v ecs_blocks r _ b e

  -- In a request, whatever fields a record has, its ECS record has at the top level the trace, transaction,
  -- http and url blocks of the request's context.
  pub log_line_has_context :
      (m : RequestLogMetadata) (r : Fields)
      → (get "trace" (ecs_of (attach (some m) r)) ≡ some m.trace)
        × (get "transaction" (ecs_of (attach (some m) r)) ≡ some m.transaction)
        × (get "http" (ecs_of (attach (some m) r)) ≡ some m.http)
        × (get "url" (ecs_of (attach (some m) r)) ≡ some m.url)
  unfolding attach
  log_line_has_context m r = (
    block_is_kept "trace" m.trace _
        (get-put_ne "trace" "url" _ _ refl
          ∙ get-put_ne "trace" "http" _ _ refl
          ∙ get-put_ne "trace" "transaction" _ _ refl
          ∙ get-put_same "trace" m.trace _)
        refl,
    block_is_kept "transaction" m.transaction _
        (get-put_ne "transaction" "url" _ _ refl
          ∙ get-put_ne "transaction" "http" _ _ refl
          ∙ get-put_same "transaction" m.transaction _)
        refl,
    block_is_kept "http" m.http _ (get-put_ne "http" "url" _ _ refl ∙ get-put_same "http" m.http _)
        refl,
    block_is_kept "url" m.url _ (get-put_same "url" m.url _) refl,
  )
