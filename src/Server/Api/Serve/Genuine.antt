-- ===== src/Server/Api/Serve/Genuine.antt =====
-- That no request forges a text with the mark of encryption, and that all is encrypted once there is a
-- password.
use copywraith.Common.{none, unwrap_or}
use copywraith.Common.Text.{Text}
use copywraith.Common.Outcome.{Outcome}
use copywraith.Model.Flavors.{no_flavors, merge_legacy}
use copywraith.Server.Records.{Store, Texts}
use copywraith.Server.Store.{clear_texts}
use copywraith.Server.Store.Migrate.Genuine.{AllGenuine, RowsGenuine}
use copywraith.Server.Api.{World, AppState}
use copywraith.Server.Api.Entries.{CreateEntryRequest}
use copywraith.Server.Api.Serve.{Request, post_entry}
use copywraith.Server.Api.Serve.Sound.{Sound}

-- The texts of an upload as they would be stored in clear.
abbrev pub uploaded : CreateEntryRequest → Texts
uploaded req =
    clear_texts
      (merge_legacy
        (merge_legacy (unwrap_or req.flavors no_flavors) req.content_type req.text_content)
        req.content_type none)
      req.content_type

module _ (w : World) (Given : Text → Type 0) where
  abbrev StoredGenuine : AppState → Type 0
  StoredGenuine s = RowsGenuine w.primitives Given s.storage.rows

  -- What an upload brings with the mark of encryption is given.
  abbrev pub Brings : Request → Type 0
  Brings (post_entry req) = AllGenuine w.primitives Given (uploaded req)
  Brings _ = Unit

  pub record Forgeless (s : AppState) : Type 0 where
    pub sound : Sound s
    pub rows : StoredGenuine s
