-- ===== src/External.antt =====
-- Domains and their rules (app/domain_policy.py).
--
-- A text is the list of its code points. Outside, and parameters: `urlsplit`, the `idna` codec and
-- the `str` methods; a URL that `urlsplit` refuses has no host here, since both raise ValueError.
-- The policy is in Policy, and the expiry of suggestions that it no longer allows in Expiry.
pub mod Policy
pub mod Expiry
pub mod Safety
pub mod Closing
pub mod Context
pub mod Inspection
mod Tests
use linking_engine_backend.Prelude.{
  ℕ, ◌==◌, Bool, true, false, ◌||◌, Option, none, some, List, [], ◌∷◌, if◌then◌else◌, Result, ok,
  err, ◌>>=◌,
}
use linking_engine_backend.Policy.Pool.{
  Names, text_eq, ends_with, contains, dot, rstrip_dots, without_wildcard, is_empty_text,
}

-- ValueError, with the value it names
pub data InvalidDomain : Type 0 where
  invalid_domain no_domain : List ℕ → InvalidDomain

abbrev pub exists_char : (ℕ → Bool) → List ℕ → Bool
exists_char p [] = false
exists_char p (c ∷ cs) = p c || exists_char p cs

-- `text or ""`
abbrev pub or_empty : Option (List ℕ) → List ℕ
or_empty none = []
or_empty (some t) = t

-- `str.isspace` of a character, and `urlsplit(url).scheme`
pub record Web : Type 0 where
  pub names : Names
  pub is_space : ℕ → Bool
  pub scheme : List ℕ → List ℕ

module _ (web : Web) where
  abbrev pub encoded : List ℕ → Option (List ℕ) → Result InvalidDomain (List ℕ)
  encoded value none = err (invalid_domain value)
  encoded value (some domain) = ok domain

  -- The host of a rule that is written as a URL.
  abbrev pub candidate_of : List ℕ → List ℕ
  candidate_of text =
      if contains text (58 ∷ 47 ∷ 47 ∷ []) then or_empty (web.names.hostname text) else text

  unfoldable pub normalize_domain : List ℕ → Result InvalidDomain (List ℕ)
  normalize_domain value =
      let candidate =
        candidate_of (rstrip_dots (without_wildcard (web.names.lower (web.names.strip value)))) in
      if is_empty_text candidate
        || (contains candidate (47 ∷ [])
            || (contains candidate (58 ∷ []) || exists_char web.is_space candidate))
      then err (invalid_domain value)
      else encoded value (web.names.idna candidate)

  abbrev pub domain_of_host : List ℕ → List ℕ → Result InvalidDomain (List ℕ)
  domain_of_host url host =
      if is_empty_text host then err (no_domain url) else normalize_domain host

  unfoldable pub domain_from_url : List ℕ → Result InvalidDomain (List ℕ)
  unfolding normalize_domain
  domain_from_url url = domain_of_host url (or_empty (web.names.hostname url))

  -- The domain, or one below it.
  abbrev pub is_within : List ℕ → List ℕ → Bool
  is_within domain rule = text_eq domain rule || ends_with domain (dot ∷ rule)

  unfoldable pub domain_matches : List ℕ → List ℕ → Result InvalidDomain Bool
  unfolding normalize_domain
  domain_matches domain rule = do
    d ← normalize_domain domain
    r ← normalize_domain rule
    ok (is_within d r)
