-- ===== src/Gc/Survival.antt =====
-- What a cycle of the collector leaves of a manifest under a pinned tag, phase after phase.
use apoci.Prelude.{Text, text_eq, false, ◌≡◌}
use apoci.Prelude.Maps
use apoci.Registry.{Version, Tag, File}
use apoci.Gc.{GcConfig, Env, State}
use apoci.Gc.Pinned.{IsLive}
use apoci.Gc.Untagged.{IsChain}

module _ (cfg : GcConfig) (env : Env) (t : Tag) (v : Version) (f : File)
    (chain : IsChain t v f) where
  abbrev Lives : State → Type 0
  Lives s = IsLive cfg env t v f s.db.packages s.db.versions s.db.tags s.db.files s.db.blobs s.disk

  -- Another digest than that of the blob.
  abbrev Apart : Text → Type 0
  Apart digest = text_eq f.blob_digest digest ≡ false
