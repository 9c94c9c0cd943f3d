-- ===== src/Urls.antt =====
-- What the program uses of package net/url, as an interface, and internal/activitypub/urlcheck.go.
use apoci.Prelude.{Text, Option, none, some, ◌++◌, codes, []}

-- url.URL: the scheme, the host with its port, the query and the fragment; `rest` holds the parts
-- that the program neither reads nor changes.
pub record Url : Type 0 where
  pub scheme : Text
  pub host : Text
  pub raw_query : Text
  pub fragment : Text
  pub rest : Text

pub record Urls : Type 0 where
  -- url.Parse; `none` is its error.
  pub parse : Text → Option Url
  -- URL.Hostname: the host without its port.
  pub hostname : Url → Text
  -- URL.String.
  pub to_string : Url → Text

module _ (urls : Urls) where
  open urls use {parse, hostname}

  unfoldable pub endpoint_from_actor_url : Text → Text
  endpoint_from_actor_url actor_url = elim (parse actor_url) [
    | none ↦ actor_url
    | some u ↦ u.scheme ++ codes "://" ++ u.host
  ]

  unfoldable pub domain_from_actor_url : Text → Text
  domain_from_actor_url actor_url = elim (parse actor_url) [ none ↦ [] | some u ↦ hostname u ]
