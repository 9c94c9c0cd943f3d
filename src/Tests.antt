-- ===== src/Tests.antt =====
-- Runs of the models on small inputs, one module for each part. The URLs of the runs are bare hosts.
mod Queues
mod Circuits
mod Deliveries
mod Names
mod Follows
mod Contents
mod Blocks
mod Gates
mod Collections
mod Blobs
mod Replications
mod Invitations
use apoci.Prelude.{Text, Option, some, codes, []}
use apoci.Urls.{Url, Urls}

abbrev pub bare_hosts : Urls
bare_hosts = record {
  parse = λ t.
      some (record { scheme = codes "https"; host = t; raw_query = []; fragment = []; rest = [] });
  hostname = λ u. u.host;
  to_string = λ u. u.host;
}

abbrev pub alice : Text
alice = codes "a.example"

abbrev pub bob : Text
bob = codes "b.example"
