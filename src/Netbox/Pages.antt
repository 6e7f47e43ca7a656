-- ===== src/Netbox/Pages.antt =====
-- What NetBox documents of its lists: a first page that counts an object shows one.
use machinecfg.Prelude.{◌<◌, ◌≢◌, []}
use machinecfg.Effect.{first}
use machinecfg.Effect.Meets.{Meets, Meets-first, Anything, ReplyIn, AnswersIn}
use machinecfg.Netbox.{Netbox, Page, Query}

abbrev pub IsShown : {A : Type 0} → Page A → Type 0
IsShown page = 0 < page.count → page.results ≢ []

pub record HasPages (N : Netbox) : Type 0 where
  pub clusters : (q : Query) (s : N.State) → ReplyIn IsShown (N.clusters_list q s)
  pub virtual_machines : (q : Query) (s : N.State) → ReplyIn IsShown (N.virtual_machines_list q s)
  pub devices : (q : Query) (s : N.State) → ReplyIn IsShown (N.devices_list q s)
  pub prefixes : (q : Query) (s : N.State) → ReplyIn IsShown (N.prefixes_list q s)
  pub ip_addresses : (q : Query) (s : N.State) → ReplyIn IsShown (N.ip_addresses_list q s)
  pub fhrp_groups : (q : Query) (s : N.State) → ReplyIn IsShown (N.fhrp_groups_list q s)
  pub service_templates : (q : Query) (s : N.State) → ReplyIn IsShown (N.service_templates_list q s)
  pub services : (q : Query) (s : N.State) → ReplyIn IsShown (N.services_list q s)

-- The requests for prefixes are answered, and an answer that counts a prefix shows one.
abbrev pub AnswersPrefixes : Netbox → Type 0
AnswersPrefixes N = (q : Query) (s : N.State) → AnswersIn IsShown (N.prefixes_list q s)

module _ {S A : Type 0} where
  pub first-Meets :
      (page : Page A)
      → 0 < page.count
      → IsShown page
      → Meets {S = S} Unit Anything (first page.results)
  first-Meets page h shown = Meets-first page.results (shown h) (λ x. tt)
