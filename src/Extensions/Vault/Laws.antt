-- ===== src/Extensions/Vault/Laws.antt =====
-- How often Vault is called for a secret, and what is returned then.
use djaskt_trading_app.Prelude.{
  ℕ, String, ◌+◌, ◌≤◌, ◌≡◌, refl, ap, sym, arith, Bool, true, false, Option, none, some,
  if◌then◌else◌,
}
use djaskt_trading_app.Prelude.Action.{Result, ok, err}
use djaskt_trading_app.Extensions.Vault.{
  VaultError, Called, returned, infisical_error, other_error, SecretQuery, Sdk, Config, Manager,
  given, logged_in, login_with, authenticate, query, fetch, fetched_again, retry, fetched, fetch_if,
  get_secret,
}

-- What counts the calls of an SDK.
pub record Counts (sdk : Sdk) (logins fetches : sdk.State → ℕ) : Type 0 where
  pub login-logins :
      (id secret : String) (c : sdk.State) → logins (sdk.login id secret c).1 ≡ logins c + 1
  pub login-fetches :
      (id secret : String) (c : sdk.State) → fetches (sdk.login id secret c).1 ≡ fetches c
  pub fetch-logins :
      (q : SecretQuery) (c : sdk.State) → logins (sdk.get_secret_by_name q c).1 ≡ logins c
  pub fetch-fetches :
      (q : SecretQuery) (c : sdk.State) → fetches (sdk.get_secret_by_name q c).1 ≡ fetches c + 1

module _ (sdk : Sdk) (config : Config) (logins fetches : sdk.State → ℕ)
    (counts : Counts sdk logins fetches) where
  -- At most so many logins and fetches lie between two states.
  unfoldable pub Within : ℕ → ℕ → sdk.State → sdk.State → Type 0
  Within l f c c' = (logins c' ≤ logins c + l) × (fetches c' ≤ fetches c + f)

  pub Within-trans :
      (l f l' f' : ℕ) (c c₁ c₂ : sdk.State)
      → Within l f c c₁
      → Within l' f' c₁ c₂
      → Within (l + l') (f + f') c c₂
  unfolding Within
  Within-trans l f l' f' c c₁ c₂ w v = (omega arith, omega arith)

  logged_in-client :
      (m : Manager sdk) (x : Called (Unit {0}) × sdk.State)
      → (logged_in sdk config m x).1.client ≡ x.1
  unfolding logged_in
  logged_in-client m (returned u, c) = refl
  logged_in-client m (infisical_error, c) = refl
  logged_in-client m (other_error, c) = refl

  login_with-Within :
      (id secret : Option String) (m : Manager sdk)
      → Within 1 0 m.client (login_with sdk config id secret m).1.client
  unfolding login_with Within
  login_with-Within (some id) (some secret) m =
      let p = logged_in-client m (sdk.login id secret m.client) in
      let l = counts.login-logins id secret m.client in
      let f = counts.login-fetches id secret m.client in rw p (omega arith, omega arith)
  login_with-Within (some id) none m = (omega arith, omega arith)
  login_with-Within none secret m = (omega arith, omega arith)

  authenticate_by-Within :
      (b : Bool) (m : Manager sdk)
      → Within 1 0 m.client
          (if b
            then (ok tt, m)
            else login_with sdk config
                (given config.client_id)
                (given config.client_secret)
                m).1.client
  unfolding Within
  authenticate_by-Within true m = (omega arith, omega arith)
  authenticate_by-Within false m =
      login_with-Within (given config.client_id) (given config.client_secret) m

  authenticate-Within : (m : Manager sdk) → Within 1 0 m.client (authenticate sdk config m).1.client
  unfolding authenticate
  authenticate-Within m = authenticate_by-Within m.authenticated m

  fetch-Within : (q : SecretQuery) (c : sdk.State) → Within 0 1 c (sdk.get_secret_by_name q c).1
  unfolding Within
  fetch-Within q c =
      let l = counts.fetch-logins q c in
      let f = counts.fetch-fetches q c in (omega arith, omega arith)

  fetched_again-client :
      (x : Called String × sdk.State) → (fetched_again sdk config x).1.client ≡ x.1
  unfolding fetched_again
  fetched_again-client (returned v, c) = refl
  fetched_again-client (infisical_error, c) = refl
  fetched_again-client (other_error, c) = refl

  retry-Within :
      (name : String) (environment : Option String) (x : Result VaultError (Unit {0}) × Manager sdk)
      → Within 0 1 x.1.client (retry sdk config name environment x).1.client
  unfolding retry Within
  retry-Within name environment (err e, m) = (omega arith, omega arith)
  retry-Within name environment (ok u, m) =
      let p = fetched_again-client (fetch sdk config name environment m) in
      rw p (fetch-Within (query sdk config name environment) m.client)

  fetched-Within :
      (name : String) (environment : Option String) (x : Called String × sdk.State)
      → Within 1 1 x.1 (fetched sdk config name environment x).1.client
  unfolding fetched Within
  fetched-Within name environment (returned v, c) = (omega arith, omega arith)
  fetched-Within name environment (other_error, c) = (omega arith, omega arith)
  fetched-Within name environment (infisical_error, c) =
      let out : Manager sdk = record { authenticated = false; client = c } in
      Within-trans 1 0 0 1 _ _ _ (authenticate-Within out)
        (retry-Within name environment (authenticate sdk config out))

  fetch_if-Within :
      (name : String) (environment : Option String) (x : Result VaultError (Unit {0}) × Manager sdk)
      → Within 1 2 x.1.client (fetch_if sdk config name environment x).1.client
  unfolding fetch_if Within
  fetch_if-Within name environment (err e, m) = (omega arith, omega arith)
  fetch_if-Within name environment (ok u, m) =
      Within-trans 0 1 1 1 _ _ _ (fetch-Within (query sdk config name environment) m.client)
        (fetched-Within name environment (fetch sdk config name environment m))

  pub get_secret-Within :
      (name : String) (environment : Option String) (m : Manager sdk)
      → Within 2 2 m.client (get_secret sdk config name environment m).1.client
  unfolding get_secret
  get_secret-Within name environment m =
      Within-trans 1 0 1 2 _ _ _ (authenticate-Within m)
        (fetch_if-Within name environment (authenticate sdk config m))

  -- Whatever the server does, one call for a secret logs in twice and fetches twice at most.
  pub get_secret_calls :
      (name : String) (environment : Option String) (m : Manager sdk)
      → (logins (get_secret sdk config name environment m).1.client ≤ logins m.client + 2)
        × (fetches (get_secret sdk config name environment m).1.client ≤ fetches m.client + 2)
  unfolding Within
  get_secret_calls name environment m = get_secret-Within name environment m

module _ (sdk : Sdk) (config : Config) (name : String) (environment : Option String) (v : String)
    (m' : Manager sdk) where
  -- The manager's last call was a fetch that returned the value.
  pub record IsFetched : Type 0 where
    pub authenticated : m'.authenticated ≡ true
    pub before : sdk.State
    pub fetched_now :
        sdk.get_secret_by_name (query sdk config name environment) before ≡ (returned v, m'.client)

  just_fetched :
      (c : sdk.State) (w : String) (c' : sdk.State)
      → sdk.get_secret_by_name (query sdk config name environment) c ≡ (returned w, c')
      → Path
          (Result VaultError String × Manager sdk)
          (ok w, record { authenticated = true; client = c' })
          (ok v, m')
      → IsFetched
  just_fetched c w c' p h =
      let q : w ≡ v = cc in
      let now : Manager sdk = record { authenticated = true; client = c' } in
      let r : now ≡ m' = ap (λ (x : Result VaultError String × Manager sdk). x.1) h in
      record {
        authenticated = ap (λ (m : Manager sdk). m.authenticated) (sym r);
        before = c;
        fetched_now = rw (sym r, sym q) p;
      }

  fetched_again-IsFetched :
      (c : sdk.State) (x : Called String × sdk.State)
      → sdk.get_secret_by_name (query sdk config name environment) c ≡ x
      → fetched_again sdk config x ≡ (ok v, m')
      → IsFetched
  unfolding fetched_again
  fetched_again-IsFetched c (returned w, c') p h = just_fetched c w c' p h
  fetched_again-IsFetched c (infisical_error, c') p h = cc
  fetched_again-IsFetched c (other_error, c') p h = cc

  retry-IsFetched :
      (x : Result VaultError (Unit {0}) × Manager sdk)
      → retry sdk config name environment x ≡ (ok v, m')
      → IsFetched
  unfolding retry
  retry-IsFetched (err e, m) h = cc
  retry-IsFetched (ok u, m) h = fetched_again-IsFetched m.client _ refl h

  fetched-IsFetched :
      (c : sdk.State) (x : Called String × sdk.State)
      → sdk.get_secret_by_name (query sdk config name environment) c ≡ x
      → fetched sdk config name environment x ≡ (ok v, m')
      → IsFetched
  unfolding fetched
  fetched-IsFetched c (returned w, c') p h = just_fetched c w c' p h
  fetched-IsFetched c (infisical_error, c') p h = retry-IsFetched _ h
  fetched-IsFetched c (other_error, c') p h = cc

  fetch_if-IsFetched :
      (x : Result VaultError (Unit {0}) × Manager sdk)
      → fetch_if sdk config name environment x ≡ (ok v, m')
      → IsFetched
  unfolding fetch_if
  fetch_if-IsFetched (err e, m) h = cc
  fetch_if-IsFetched (ok u, m) h = fetched-IsFetched m.client _ refl h

  -- A secret is returned only as the value that the last fetch has just returned for its name, and by a manager that
  -- is authenticated: never from a default, nor from an earlier call.
  pub get_secret-eq-ok :
      (m : Manager sdk) → get_secret sdk config name environment m ≡ (ok v, m') → IsFetched
  unfolding get_secret
  get_secret-eq-ok m h = fetch_if-IsFetched (authenticate sdk config m) h
