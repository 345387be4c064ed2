-- ===== src/Api/Sites.antt =====
-- apps/api/src/trpc/routers/sites.ts: the sites of an organization.
-- The input of `create`.
pub mod Listing
use mikrotikbandwidthmonitor.Prelude.Bytes.{Text}
use mikrotikbandwidthmonitor.Prelude.{
  leb, ◌==◌, if◌then◌else◌, length, Result, ok, err, none, List, Bool, ◌&&◌, Option, ℕ, some,
}
use mikrotikbandwidthmonitor.Api.Database.{Engine}
use mikrotikbandwidthmonitor.Api.Schema.{Uuid, Site}
use mikrotikbandwidthmonitor.Api.Context.{
  ApiError, bad_request, database, Context, protected_procedure,
}

pub record SiteInput : Type 0 where
  pub name : Text
  pub location : Option Text
  pub latitude : Option Text
  pub longitude : Option Text

-- `z.string().min(1).max(255)`
abbrev pub is_name : Text → Bool
is_name s = leb 1 (length s) && leb (length s) 255

abbrev pub new_site : Uuid → ℕ → Uuid → SiteInput → Site
new_site id now org input = record {
  id = id;
  org_id = org;
  name = input.name;
  location = input.location;
  latitude = input.latitude;
  longitude = input.longitude;
  created_at = now;
}

module _ (engine : Engine) where
  unfoldable pub list_sites : Context → engine.Table Site → Result ApiError (List Site)
  list_sites ctx sites = protected_procedure ctx (λ user org.
      ok (engine.order_text (λ s. s.name) (engine.select (λ s. s.org_id == org) sites)))

  -- `create`, with the check of its input behind that of the context
  unfoldable pub create_site :
      Uuid
      → ℕ
      → Context
      → engine.Table Site
      → SiteInput
      → Result ApiError (Site × engine.Table Site)
  create_site id now ctx sites input = protected_procedure ctx (λ user org.
      if is_name input.name
      then elim (engine.insert (new_site id now org input) sites) [
        | none ↦ err database
        | some sites' ↦ ok (new_site id now org input, sites')
      ]
      else err bad_request)
