-- ===== src/Signature.antt =====
-- internal/activitypub/httpsig.go: what VerifyRequest demands of a signed request. The library that
-- reads and checks HTTP signatures, the decoders of keys and dates, and the hash are parameters.
pub mod Verified
use apoci.Prelude.{
  ℕ, ◌+◌, Text, codes, [], ◌∷◌, List, ◌++◌, Bool, true, false, ◌&&◌, ◌||◌, not, Option, none, some,
  text_eq, cut_prefix, split, trim, is_space, fields, equal_fold, any, all, leb, ltb, ◌==◌,
  if◌then◌else◌, is_some, ◌⊎◌, inl, inr,
}
use apoci.Prelude.Maps
use apoci.Prelude.Maps.{Map}

-- http.Request as far as the inbox reads it. `raw_body` is what the connection delivers.
pub record Request : Type 0 where
  pub method : Text
  pub content_type : Text
  pub signature : Text
  pub date : Text
  pub digest : Text
  pub raw_body : Text
  pub read_fails : Bool

-- The parsed public keys: an RSA key with its bits, an ECDSA key with its curve, or another kind.
pub data Curve : Type 0 where
  p256 p384 p521 other_curve : Curve

pub data PublicKey : Type 0 where
  rsa_key : ℕ → Text → PublicKey
  ecdsa_key : Curve → Text → PublicKey
  other_key : PublicKey

pub data Algorithm : Type 0 where
  ecdsa_sha256 rsa_sha256 : Algorithm

pub record Crypto : Type 0 where
  -- httpsig.NewVerifier and KeyId; `none` is its error.
  pub key_id : Request → Option Text
  -- Verifier.Verify; `true` is the nil error.
  pub verify : Request → PublicKey → Algorithm → Bool
  -- time.Parse of http.TimeFormat, as an instant; `none` is its error.
  pub parse_date : Text → Option ℕ
  -- base64.StdEncoding.EncodeToString of sha256.Sum256
  pub hash_base64 : Text → Text
  -- pem.Decode; `none` where there is no block.
  pub pem_block : Text → Option Text
  -- x509.ParsePKIXPublicKey; `none` is its error.
  pub parse_pkix : Text → Option PublicKey

pub data VerifyError : Type 0 where
  no_verifier no_signature duplicate_headers no_headers header_not_signed : VerifyError
  digest_not_signed no_date invalid_date expired bad_digest bad_key bad_signature : VerifyError
  no_raw_signature replayed : VerifyError

-- signatureMaxAge, five minutes in the unit of time.Duration.
abbrev pub signature_max_age : ℕ
signature_max_age = 300_000_000_000

-- The TTL of the entries of the cache, signatureMaxAge + 1*time.Minute.
abbrev pub signature_cache_ttl : ℕ
signature_cache_ttl = 360_000_000_000

is_quote : ℕ → Bool
is_quote c = c == b'"'

-- The fields of the Signature header that begin with a name, unquoted, in their order.
unfoldable pub values_of : Text → List Text → List Text
unfolding is_quote
values_of name [] = []
values_of name (part ∷ parts) =
    let rest = values_of name parts in
    elim (cut_prefix name (trim is_space part)) [
      | none ↦ rest
      | some val ↦ trim is_quote val ∷ rest
    ]

abbrev is_empty : Text → Bool
is_empty [] = true
is_empty (_ ∷ _) = false

unfoldable pub single : List Text → VerifyError ⊎ List Text
single [] = inl no_headers
single (v ∷ []) = inr (fields v)
single (v ∷ w ∷ vs) = inl duplicate_headers

-- extractSignedHeaders
unfoldable pub extract_signed_headers : Text → VerifyError ⊎ List Text
unfolding single values_of
extract_signed_headers sig =
    if is_empty sig
    then inl no_signature
    else single (values_of (codes "headers=") (split b',' sig))

first : List Text → Text
first [] = []
first (v ∷ vs) = v

-- extractRawSignature
unfoldable pub extract_raw_signature : Text → Text
unfolding first values_of
extract_raw_signature sig = first (values_of (codes "signature=") (split b',' sig))

unfoldable pub has_header : Text → List Text → Bool
has_header name signed = any (λ h. equal_fold h name) signed

unfoldable pub required_signed_headers : List Text
required_signed_headers = codes "(request-target)" ∷ codes "host" ∷ codes "date" ∷ []

-- |now - date| <= signatureMaxAge
unfoldable pub is_fresh : ℕ → ℕ → Bool
is_fresh now date = leb now (date + signature_max_age) && leb date (now + signature_max_age)

module _ (crypto : Crypto) where
  open crypto use {verify, parse_date, hash_base64, pem_block, parse_pkix, key_id}

  -- verifyBodyDigest; `true` is the nil error.
  unfoldable pub verify_body_digest : Text → Text → Bool
  verify_body_digest header body = text_eq header (codes "SHA-256=" ++ hash_base64 body)

  unfoldable pub known_curve : Curve → Bool
  known_curve other_curve = false
  known_curve _ = true

  unfoldable pub strong : PublicKey → Option PublicKey
  strong (rsa_key bits k) = if ltb bits 2048 then none else some (rsa_key bits k)
  strong (ecdsa_key curve k) = if known_curve curve then some (ecdsa_key curve k) else none
  strong other_key = none

  -- parsePublicKeyPEM; `none` is its error.
  unfoldable pub parse_public_key_pem : Text → Option PublicKey
  parse_public_key_pem pem = elim (pem_block pem) [
    | none ↦ none
    | some block ↦ elim (parse_pkix block) [ none ↦ none | some key ↦ strong key ]
  ]

  -- algorithmForPublicKey; its panic on another kind of key is behind parsePublicKeyPEM.
  unfoldable pub algorithm_for : PublicKey → Algorithm
  algorithm_for (rsa_key bits k) = rsa_sha256
  algorithm_for (ecdsa_key curve k) = ecdsa_sha256
  algorithm_for other_key = rsa_sha256

  -- An early return, unless the test holds.
  unfoldable pub unless : Bool → VerifyError → Option VerifyError → Option VerifyError
  unless true e rest = rest
  unless false e rest = some e

  unfoldable pub check_key : Request → Option PublicKey → Option VerifyError
  check_key r none = some bad_key
  check_key r (some key) = unless (verify r key (algorithm_for key)) bad_signature none

  unfoldable pub check_date : ℕ → Option ℕ → Option VerifyError → Option VerifyError
  check_date now none rest = some invalid_date
  check_date now (some date) rest = unless (is_fresh now date) expired rest

  unfoldable pub check_signed : ℕ → Request → Text → Text → List Text → Option VerifyError
  check_signed now r pem body signed =
      unless (all (λ h. has_header h signed) required_signed_headers) header_not_signed (
        unless (is_empty body || has_header (codes "digest") signed) digest_not_signed (
          unless (not (is_empty r.date)) no_date (
            check_date now (parse_date r.date) (
              unless (is_empty body || verify_body_digest r.digest body) bad_digest
                (check_key r (parse_public_key_pem pem))))))

  -- VerifyRequest before the cache; `none` is the nil error.
  unfoldable pub check_request : ℕ → Request → Text → Text → Option VerifyError
  check_request now r pem body = elim (key_id r) [
    | none ↦ some no_verifier
    | some id ↦ elim (extract_signed_headers r.signature) [
      | inl e ↦ some e
      | inr signed ↦ check_signed now r pem body signed
    ]
  ]

  abbrev pub id_of : Option Text → Text
  id_of none = []
  id_of (some id) = id

  -- The key of the cache: keyID + "\x00" + signature.
  unfoldable pub cache_key : Request → Text
  cache_key r = id_of (key_id r) ++ 0 ∷ extract_raw_signature r.signature

  -- An entry, by the instant at which it expires, is still there.
  abbrev pub is_live : ℕ → Option ℕ → Bool
  is_live now none = false
  is_live now (some expires) = leb now expires

  -- SignatureCache.seen, and the entry that it leaves: GetOrSet stores a new one, and a hit, as
  -- ttlcache documents it, starts the TTL of the old one again.
  unfoldable pub record_seen : ℕ → Request → Map ℕ → Map ℕ × Option VerifyError
  record_seen now r cache =
      if is_empty (extract_raw_signature r.signature) then (cache, some no_raw_signature) else (
        Maps.put (cache_key r) (now + signature_cache_ttl) cache,
        if is_live now (Maps.get (cache_key r) cache) then some replayed else none,
      )

  unfoldable pub remember : ℕ → Request → Option VerifyError → Map ℕ → Map ℕ × Option VerifyError
  remember now r (some e) cache = (cache, some e)
  remember now r none cache = record_seen now r cache

  -- VerifyRequest, with a cache.
  unfoldable pub verify_request : ℕ → Request → Text → Text → Map ℕ → Map ℕ × Option VerifyError
  verify_request now r pem body cache = remember now r (check_request now r pem body) cache
