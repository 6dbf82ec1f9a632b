-- ===== src/Access/Keys.antt =====
-- The text of a key and the caller it stands for (app/services/authorization.py).
use linking_engine_backend.Prelude.{
  not-false, not-true, &&-true, inl, inr, >>-returns, ℕ, ◌≡◌, refl, subst, Bool, true, false, not,
  ◌&&◌, String, str_eq, str_eq_iff, Option, is_none, none, some, List, [], ◌∷◌, ◌++◌, find, elem,
  take, ok, In, In-find, arith, Bool-cases,
}
use linking_engine_backend.Policy.Pool.{is_empty_text, text_eq}
use linking_engine_backend.Access.{
  ApiKey, AuthSettings, Principal, underscore, cut, parse_key_prefix, dashes, key_text, has_expired,
  is_misscoped, operator_of, principal_of, touch_last_used, with_key, with_prefix, with_operator,
  with_header, has_no_rows, has_no_operators, http, env_principal, unauthorized, is_misscoped,
  authenticate_api_key,
}

cut-append :
    (sep : ℕ) (xs ys : List ℕ) → elem sep xs ≡ false → cut sep (xs ++ sep ∷ ys) ≡ (xs, some ys)
cut-append sep [] ys free = ground arith
cut-append sep (x ∷ xs) ys free = ground (arith, cut-append sep xs ys (ground (arith, free)))

elem-dashes : (cs : List ℕ) → elem underscore (dashes cs) ≡ false
elem-dashes [] = refl
elem-dashes (c ∷ cs) = ground (arith, elem-dashes cs)

-- A key is read back as its prefix.
parse_key_prefix-key_text :
    (environment prefix secret : List ℕ)
    → elem underscore prefix ≡ false
    → is_empty_text prefix ≡ false
    → parse_key_prefix (key_text environment prefix secret) ≡ some prefix
unfolding parse_key_prefix key_text
parse_key_prefix-key_text environment prefix secret free nonempty = rw (
  cut-append underscore (dashes (take 12 environment)) (prefix ++ underscore ∷ secret)
      (elem-dashes (take 12 environment)),
  cut-append underscore prefix secret free,
  nonempty,
)

and_false : (a : Bool) → a && false ≡ false
and_false true = refl
and_false false = refl

and_and_false : (a b : Bool) → a && (b && false) ≡ false
and_and_false true true = refl
and_and_false true false = refl
and_and_false false b = refl

no_value : (o : Option ℕ) → not (is_none o) ≡ false → o ≡ none
no_value none e = refl
no_value (some n) e = absurd (ground arith)

module _ (hash_api_key : List ℕ → String) (settings : AuthSettings) (now : ℕ) where
  has_rows :
      (p : ApiKey → Bool) (keys : List ApiKey) (key : ApiKey)
      → find p keys ≡ some key
      → has_no_rows hash_api_key settings now keys ≡ false
  has_rows p [] key e = absurd (ground arith)
  has_rows p (k ∷ keys) key e = refl

  -- A key minted for an environment with the prefix of a stored row that is live, not
  -- misscoped and holds its digest authenticates to that row's principal.
  pub authenticate_api_key-key_text :
      (commits : Bool) (environment prefix secret : List ℕ) (key : ApiKey) (keys : List ApiKey)
      → elem underscore prefix ≡ false
      → is_empty_text prefix ≡ false
      → find (λ (k : ApiKey). text_eq k.prefix prefix) keys ≡ some key
      → key.revoked_at ≡ none
      → has_expired hash_api_key settings now key.expires_at ≡ false
      → key.secret_hash ≡ hash_api_key (key_text environment prefix secret)
      → is_misscoped hash_api_key settings now key ≡ false
      → text_eq (key_text environment prefix secret) settings.api_key ≡ false
      → operator_of hash_api_key settings now
          (key_text environment prefix secret)
          settings.operator_api_keys
        ≡ none
      → authenticate_api_key hash_api_key settings now commits
          (some (key_text environment prefix secret))
          keys
        ≡ ok (
          principal_of hash_api_key settings now key,
          touch_last_used hash_api_key settings now commits key keys,
        )
  unfolding authenticate_api_key
  authenticate_api_key-key_text commits environment prefix secret key keys free nonempty found live
        unexpired hashed scoped not_env not_operator =
      let configured : is_empty_text settings.api_key
            && (has_no_operators hash_api_key settings now settings.operator_api_keys
                && has_no_rows hash_api_key settings now keys)
          ≡ false =
        rw (has_rows (λ (k : ApiKey). text_eq k.prefix prefix) keys key found)
          (and_and_false _ _) in
      let same_digest =
        (str_eq_iff (hash_api_key (key_text environment prefix secret))
            (hash_api_key (key_text environment prefix secret))).1
          refl in
      rw (
        configured,
        not_env,
        and_false (not (is_empty_text settings.api_key)),
        not_operator,
        parse_key_prefix-key_text environment prefix secret free nonempty,
        found,
        live,
        unexpired,
        hashed,
        same_digest,
        scoped,
      )

  -- What a caller may be, for the key in the header and the stored rows.
  pub data StandsFor (raw_key : List ℕ) (keys : List ApiKey) : Principal → Type 0 where
    environment_key :
        text_eq raw_key settings.api_key ≡ true
        → is_empty_text settings.api_key ≡ false
        → StandsFor raw_key keys (env_principal hash_api_key settings now none)
    operator_key :
        (name : String) (key : List ℕ)
        → In (name, key) settings.operator_api_keys
        → text_eq raw_key key ≡ true
        → StandsFor raw_key keys (env_principal hash_api_key settings now (some name))
    stored_key :
        (key : ApiKey) (prefix : List ℕ)
        → In key keys
        → parse_key_prefix raw_key ≡ some prefix
        → text_eq key.prefix prefix ≡ true
        → key.revoked_at ≡ none
        → has_expired hash_api_key settings now key.expires_at ≡ false
        → key.secret_hash ≡ hash_api_key raw_key
        → is_misscoped hash_api_key settings now key ≡ false
        → StandsFor raw_key keys (principal_of hash_api_key settings now key)

  operator_of_found :
      (raw_key : List ℕ) (name : String) (ops : List (String × List ℕ))
      → operator_of hash_api_key settings now raw_key ops ≡ some name
      → (key : List ℕ) × In (name, key) ops × (text_eq raw_key key ≡ true)
  operator_of_found raw_key name [] e = absurd (ground arith)
  operator_of_found raw_key name ((n, k) ∷ ops) e = elim (Bool-cases (text_eq raw_key k)) [
    | inl y ↦ (k, inl ground arith, y)
    | inr y ↦
        let (k', i, same) = operator_of_found raw_key name ops (ground (arith, e)) in
        (k', inr i, same)
  ]

  with_key-StandsFor :
      (commits : Bool) (raw_key prefix : List ℕ) (found : Option ApiKey) (keys keys' : List ApiKey)
      (p : Principal)
      → parse_key_prefix raw_key ≡ some prefix
      → find (λ (k : ApiKey). text_eq k.prefix prefix) keys ≡ found
      → with_key hash_api_key settings now commits raw_key found keys ≡ ok (p, keys')
      → StandsFor raw_key keys p
  with_key-StandsFor commits raw_key prefix none keys keys' p parsed found e = absurd (ground arith)
  with_key-StandsFor commits raw_key prefix (some key) keys keys' p parsed found e =
      let (live, e₁) = >>-returns (not (is_none key.revoked_at)) unauthorized _ e in
      let (unexpired, e₂) =
        >>-returns (has_expired hash_api_key settings now key.expires_at) unauthorized _ e₁ in
      let (same, e₃) =
        >>-returns (not (str_eq key.secret_hash (hash_api_key raw_key))) unauthorized _ e₂ in
      let (scoped, e₄) =
        >>-returns (is_misscoped hash_api_key settings now key) unauthorized _ e₃ in
      let (i, matches) = In-find (λ (k : ApiKey). text_eq k.prefix prefix) key keys found in
      let is_p : principal_of hash_api_key settings now key ≡ p = ground (arith, e₄) in
      subst (StandsFor raw_key keys) is_p (
        stored_key key prefix i parsed matches (no_value key.revoked_at live) unexpired
          ((str_eq_iff key.secret_hash (hash_api_key raw_key)).0 (not-false _ same)) scoped)

  with_prefix-StandsFor :
      (commits : Bool) (raw_key : List ℕ) (o : Option (List ℕ)) (keys keys' : List ApiKey)
      (p : Principal)
      → parse_key_prefix raw_key ≡ o
      → with_prefix hash_api_key settings now commits raw_key o keys ≡ ok (p, keys')
      → StandsFor raw_key keys p
  with_prefix-StandsFor commits raw_key none keys keys' p parsed e = absurd (ground arith)
  with_prefix-StandsFor commits raw_key (some prefix) keys keys' p parsed e =
      with_key-StandsFor commits raw_key prefix
        (find (λ (k : ApiKey). text_eq k.prefix prefix) keys) keys keys' p parsed refl e

  with_header-StandsFor :
      (commits : Bool) (raw_key : List ℕ) (keys keys' : List ApiKey) (p : Principal)
      → with_header hash_api_key settings now commits (some raw_key) keys ≡ ok (p, keys')
      → StandsFor raw_key keys p
  with_header-StandsFor commits raw_key keys keys' p e =
      elim (Bool-cases (not (is_empty_text settings.api_key) && text_eq raw_key settings.api_key)) [
        | inl y ↦
            let (a, b) =
              &&-true (not (is_empty_text settings.api_key)) (text_eq raw_key settings.api_key) y in
            let is_p : env_principal hash_api_key settings now none ≡ p = ground (arith, e) in
            subst (StandsFor raw_key keys) is_p (environment_key b (not-true _ a))
        | inr y ↦
            with_operator-StandsFor
              (operator_of hash_api_key settings now raw_key settings.operator_api_keys) refl
              (rw y at e)
      ]
    where
      with_operator-StandsFor :
          (o : Option String)
          → operator_of hash_api_key settings now raw_key settings.operator_api_keys ≡ o
          → with_operator hash_api_key settings now commits raw_key o keys ≡ ok (p, keys')
          → StandsFor raw_key keys p
      with_operator-StandsFor (some name) found e' =
          let (key, i, same) = operator_of_found raw_key name settings.operator_api_keys found in
          let is_p : env_principal hash_api_key settings now (some name) ≡ p = ground (arith, e') in
          subst (StandsFor raw_key keys) is_p (operator_key name key i same)
      with_operator-StandsFor none found e' =
          with_prefix-StandsFor commits raw_key (parse_key_prefix raw_key) keys keys' p refl e'

  -- A request that authenticates carried the key of the environment, an operator's key, or the
  -- key whose digest a row holds that is neither revoked nor expired nor misscoped, and the
  -- caller is the one that key stands for.
  pub authenticate_api_key-StandsFor :
      (commits : Bool) (header : Option (List ℕ)) (keys keys' : List ApiKey) (p : Principal)
      → authenticate_api_key hash_api_key settings now commits header keys ≡ ok (p, keys')
      → (raw_key : List ℕ) × (header ≡ some raw_key) × StandsFor raw_key keys p
  unfolding authenticate_api_key
  authenticate_api_key-StandsFor commits none keys keys' p e = absurd (ground arith)
  authenticate_api_key-StandsFor commits (some raw_key) keys keys' p e =
      let (configured, e₁) =
        >>-returns
          (is_empty_text settings.api_key
            && (has_no_operators hash_api_key settings now settings.operator_api_keys
                && has_no_rows hash_api_key settings now keys))
          (http 503) _ e in
      (raw_key, refl, with_header-StandsFor commits raw_key keys keys' p e₁)
