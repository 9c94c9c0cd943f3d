-- ===== src/Signature/Verified.antt =====
-- What a request that VerifyRequest accepts is known to have, and that it is accepted once.
use mathlib.Core.Path.{subst}
use apoci.Prelude.{
  ℕ, ◌+◌, ◌≤◌, ◌≡◌, ◌≢◌, refl, Bool, true, false, Option, none, some, Text, text_eq_iff,
  text_eq_refl, codes, [], ◌∷◌, List, ◌++◌, ◌⊎◌, inl, inr, arith, chain_some, if_none-some,
  if_some-none, ◌||◌, sym,
}
use apoci.Prelude.Maps
use apoci.Prelude.Maps.{Map, get-put}
use apoci.Signature.{
  Request, Crypto, PublicKey, rsa_key, ecdsa_key, other_key, other_curve, VerifyError,
  signature_max_age, signature_cache_ttl, extract_signed_headers, has_header,
  required_signed_headers, is_fresh, verify_body_digest, known_curve, strong, parse_public_key_pem,
  algorithm_for, unless, check_key, check_date, check_signed, check_request, cache_key, record_seen,
  remember, verify_request, is_empty, Curve, p256, p384, p521, no_verifier,
}

-- An RSA key of at least 2048 bits, or an ECDSA key on one of the three curves.
abbrev pub IsStrong : PublicKey → Type 0
IsStrong (rsa_key bits k) = 2048 ≤ bits
IsStrong (ecdsa_key curve k) = curve ≢ other_curve
IsStrong other_key = ⊥

module _ (crypto : Crypto) (now : ℕ) (r : Request) (pem body : Text) where
  open crypto use {verify, parse_date, hash_base64}

  -- The request is signed: its target, host and date are covered, its date is near, its body, where
  -- there is one, is covered by a digest that is its own, and its signature is that of a strong key.
  pub record IsAuthentic : Type 0 where
    pub signed : List Text
    pub read : extract_signed_headers r.signature ≡ inr signed
    pub target : has_header (codes "(request-target)") signed ≡ true
    pub host : has_header (codes "host") signed ≡ true
    pub dated : has_header (codes "date") signed ≡ true
    pub covers_body : body ≢ [] → has_header (codes "digest") signed ≡ true
    pub own_digest : body ≢ [] → r.digest ≡ codes "SHA-256=" ++ hash_base64 body
    pub date : ℕ
    pub date_read : parse_date r.date ≡ some date
    pub not_old : now ≤ date + signature_max_age
    pub not_ahead : date ≤ now + signature_max_age
    pub key : PublicKey
    pub key_read : parse_public_key_pem crypto pem ≡ some key
    pub is_strong : IsStrong key
    pub verified : verify r key (algorithm_for crypto key) ≡ true

unless-none :
    (crypto : Crypto) (b : Bool) (e : VerifyError) (rest : Option VerifyError)
    → unless crypto b e rest ≡ none
    → (b ≡ true) × (rest ≡ none)
unfolding unless
unless-none crypto true e rest h = (refl, h)
unless-none crypto false e rest h = ground arith

key_checked :
    (crypto : Crypto) (r : Request) (found : Option PublicKey)
    → check_key crypto r found ≡ none
    → (key : PublicKey) × (found ≡ some key)
      × (crypto.verify r key (algorithm_for crypto key) ≡ true)
unfolding check_key
key_checked crypto r none h = ground arith
key_checked crypto r (some key) h = (key, refl, (unless-none crypto _ _ _ h).0)

date_checked :
    (crypto : Crypto) (now : ℕ) (found : Option ℕ) (rest : Option VerifyError)
    → check_date crypto now found rest ≡ none
    → (date : ℕ) × (found ≡ some date) × (is_fresh now date ≡ true) × (rest ≡ none)
unfolding check_date
date_checked crypto now none rest h = ground arith
date_checked crypto now (some date) rest h =
    let (fresh, left) = unless-none crypto _ _ _ h in (date, refl, fresh, left)

no_other : (crypto : Crypto) (curve : Curve) → known_curve crypto curve ≡ true → curve ≢ other_curve
unfolding known_curve
no_other crypto other_curve h e = absurd (ground arith)
no_other crypto p256 h e = cc
no_other crypto p384 h e = cc
no_other crypto p521 h e = cc

strong-IsStrong : (crypto : Crypto) (k key : PublicKey) → strong crypto k ≡ some key → IsStrong key
unfolding strong known_curve
strong-IsStrong crypto (rsa_key bits k) key h =
    let (big, same) = if_none-some _ _ _ h in subst IsStrong same (ground arith)
strong-IsStrong crypto (ecdsa_key curve k) key h =
    let (known, same) = if_some-none _ _ _ h in
    subst IsStrong same (λ e. no_other crypto curve known e)
strong-IsStrong crypto other_key key h = ground arith

parsed-IsStrong :
    (crypto : Crypto) (pem : Text) (key : PublicKey)
    → parse_public_key_pem crypto pem ≡ some key
    → IsStrong key
unfolding parse_public_key_pem
parsed-IsStrong crypto pem key h =
    let (block, at, rest) = chain_some (crypto.pem_block pem) _ key h in
    let (k, parsed, kept) = chain_some (crypto.parse_pkix block) (strong crypto) key rest in
    strong-IsStrong crypto k key kept

is_empty-false : (s : Text) → s ≢ [] → is_empty s ≡ false
is_empty-false [] h = absurd (h refl)
is_empty-false (c ∷ s) h = refl

covered_by : {a b : Bool} → a ≡ false → a || b ≡ true → b ≡ true
covered_by {a = true} e h = absurd (ground arith)
covered_by {a = false} e h = h

-- VerifyRequest before its cache accepts only signed requests.
authentic :
    (crypto : Crypto) (now : ℕ) (r : Request) (pem body : Text) (signed : List Text)
    → extract_signed_headers r.signature ≡ inr signed
    → check_signed crypto now r pem body signed ≡ none
    → IsAuthentic crypto now r pem body
unfolding check_signed required_signed_headers verify_body_digest
authentic crypto now r pem body signed read h =
    let (headers, h1) = unless-none crypto _ _ _ h in
    let (covered, h2) = unless-none crypto _ _ _ h1 in
    let (some_date, h3) = unless-none crypto _ _ _ h2 in
    let (date, date_read, fresh, h4) = date_checked crypto now (crypto.parse_date r.date) _ h3 in
    let (digest, h5) = unless-none crypto _ _ _ h4 in
    let (key, key_read, verified) = key_checked crypto r (parse_public_key_pem crypto pem) h5 in
    record {
      signed = signed;
      read = read;
      target = ground arith;
      host = ground arith;
      dated = ground arith;
      covers_body = λ ne. covered_by (is_empty-false body ne) covered;
      own_digest = λ ne. (text_eq_iff _ _).0 (covered_by (is_empty-false body ne) digest);
      date = date;
      date_read = date_read;
      not_old = unfold is_fresh in ground arith;
      not_ahead = unfold is_fresh in ground arith;
      key = key;
      key_read = key_read;
      is_strong = parsed-IsStrong crypto pem key key_read;
      verified = verified;
    }

fields_read :
    (crypto : Crypto) (id : Option Text) (found : VerifyError ⊎ List Text)
    (next : List Text → Option VerifyError)
    → (elim id [
      | none ↦ some no_verifier
      | some k ↦ elim found [ inl e ↦ some e | inr signed ↦ next signed ]
    ])
      ≡ none
    → (signed : List Text) × (found ≡ inr signed) × (next signed ≡ none)
fields_read crypto none found next h = absurd (ground arith)
fields_read crypto (some k) (inl e) next h = absurd (ground arith)
fields_read crypto (some k) (inr signed) next h = (signed, refl, h)

-- What an accepted request leaves in the cache.
remembered :
    (crypto : Crypto) (now : ℕ) (r : Request) (e : Option VerifyError) (cache : Map ℕ)
    → (remember crypto now r e cache).1 ≡ none
    → (e ≡ none)
      × (Maps.get (cache_key crypto r) (remember crypto now r e cache).0
          ≡ some (now + signature_cache_ttl))
unfolding remember record_seen
remembered crypto now r (some e) cache h = absurd (ground arith)
remembered crypto now r none cache h =
    let k = cache_key crypto r in
    (refl, ground (arith, get-put k k (now + signature_cache_ttl) cache, text_eq_refl k))

seen_refused :
    (crypto : Crypto) (later expires : ℕ) (r : Request) (e : Option VerifyError) (cache : Map ℕ)
    → Maps.get (cache_key crypto r) cache ≡ some expires
    → later ≤ expires
    → (remember crypto later r e cache).1 ≢ none
unfolding remember record_seen
seen_refused crypto later expires r (some e) cache seen soon h = ground arith
seen_refused crypto later expires r none cache seen soon h = ground arith

module _ (crypto : Crypto) (now : ℕ) (r : Request) (pem body : Text) where
  check_request-IsAuthentic :
      check_request crypto now r pem body ≡ none → IsAuthentic crypto now r pem body
  unfolding check_request
  check_request-IsAuthentic h =
      let (signed, read, rest) = fields_read crypto (crypto.key_id r) _ _ h in
      authentic crypto now r pem body signed read rest

  -- VerifyRequest accepts a request only if it is authentic; and once it has, it accepts neither
  -- the same request nor any other with the same key and signature in the next call, if that comes
  -- within six minutes, the TTL of the cache.
  pub verify_request-IsAuthentic :
      (later : ℕ) (r' : Request) (pem' body' : Text) (cache : Map ℕ)
      → (verify_request crypto now r pem body cache).1 ≡ none
      → cache_key crypto r' ≡ cache_key crypto r
      → later ≤ now + signature_cache_ttl
      → IsAuthentic crypto now r pem body
        × ((verify_request crypto later r' pem' body'
              (verify_request crypto now r pem body cache).0).1
            ≢ none)
  unfolding verify_request
  verify_request-IsAuthentic later r' pem' body' cache h same soon =
      let (checked, stored) =
        remembered crypto now r (check_request crypto now r pem body) cache h in
      (
        check_request-IsAuthentic checked,
        seen_refused crypto later (now + signature_cache_ttl) r'
            (check_request crypto later r' pem' body') _
            (subst
              (λ k.
                Maps.get k (verify_request crypto now r pem body cache).0
                ≡ some (now + signature_cache_ttl))
              (sym same) stored)
            soon,
      )

  -- The first half alone, whatever comes later.
  pub accepted-IsAuthentic :
      (cache : Map ℕ)
      → (verify_request crypto now r pem body cache).1 ≡ none
      → IsAuthentic crypto now r pem body
  unfolding verify_request
  accepted-IsAuthentic cache h =
      check_request-IsAuthentic
        (remembered crypto now r (check_request crypto now r pem body) cache h).0
