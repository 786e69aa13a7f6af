-- ===== src/Partners.antt =====
-- core/partner.go, the PartnerManager: the partners of a referential and their credentials.
-- The partners are pointers that the manager shares with its callers; a change to a partner that was
-- found is `update` of the changed value here. Start and Stop are left out.
pub mod Owners
pub mod Validation
use ara.Prelude.{
  ℕ, dec_lt, String, Bool, true, false, ◌&&◌, not, Option, none, some, List, [], ◌∷◌, ite,
  if◌then◌else◌, string_dec, string_key,
}
use ara.GoMap.{Map, get, set, delete, is_empty}
use ara.Credentials
use ara.Credentials.{PartnerId, Credentials, uniq_credentials}
use ara.PartnerSettings.{collect_priority, setting, credentials}
use ara.Connectors.{same}
use ara.Partner
use ara.Partner.{Partner}

pub record Partners (C S : Type 0) : Type 0 where
  pub by_id : Map PartnerId (Partner C S)
  pub local_credentials_index : Credentials

module _ {C S : Type 0} where
  -- NewPartnerManager
  abbrev pub empty : Partners C S
  empty = record { by_id = []; local_credentials_index = Credentials.empty }

  -- Find; none is nil
  unfoldable pub find : Partners C S → PartnerId → Option (Partner C S)
  find manager id = get manager.by_id id

  -- the loops that return the first partner that passes a test
  unfoldable pub first : (Partner C S → Bool) → Map PartnerId (Partner C S) → Option (Partner C S)
  first test [] = none
  first test ((_, partner) ∷ rest) =
      let later = first test rest in if test partner then some partner else later

  -- FindBySetting
  unfoldable pub find_by_setting : Partners C S → String → String → Option (Partner C S)
  unfolding first
  find_by_setting manager key value =
      first (λ partner. same (setting partner.settings key) value) manager.by_id

  -- FindBySlug
  unfoldable pub find_by_slug : Partners C S → String → Option (Partner C S)
  unfolding first
  find_by_slug manager slug = first (λ partner. same partner.slug slug) manager.by_id

  abbrev pub owner : Partners C S → Option PartnerId → Option (Partner C S)
  owner manager none = none
  owner manager (some id) = get manager.by_id id

  -- FindByCredential
  unfoldable pub find_by_credential : Partners C S → String → Option (Partner C S)
  find_by_credential manager c = owner manager (Credentials.find manager.local_credentials_index c)

  unfoldable pub values : Map PartnerId (Partner C S) → List (Partner C S)
  values [] = []
  values ((_, partner) ∷ rest) = partner ∷ values rest

  -- FindAll
  unfoldable pub find_all : Partners C S → List (Partner C S)
  unfolding values
  find_all manager = values manager.by_id

  -- Less of ByPriority
  unfoldable pub ranks_above : (String → ℕ) → Partner C S → Partner C S → Bool
  unfolding collect_priority
  ranks_above atoi p q =
      ite (dec_lt (collect_priority atoi q.settings) (collect_priority atoi p.settings)) true false

  -- FindAllByCollectPriority; `sort` is sort.Sort(ByPriority(...)) on a slice
  unfoldable pub find_all_by_collect_priority :
      (List (Partner C S) → List (Partner C S)) → Partners C S → List (Partner C S)
  find_all_by_collect_priority sort manager = sort (find_all manager)

  -- the start of Save: a partner with no id gets a new one
  unfoldable pub identified : PartnerId → Partner C S → Partner C S
  identified uuid partner = ite (string_dec partner.id "") (record partner { id = uuid }) partner

  unfoldable pub keep : Partners C S → Partner C S → Partners C S
  keep manager partner = record {
    by_id = set manager.by_id partner.id partner;
    local_credentials_index =
        Credentials.index manager.local_credentials_index partner.id (credentials partner.settings);
  }

  -- Save
  unfoldable pub save : Partners C S → PartnerId → Partner C S → Partners C S × Partner C S
  unfolding identified keep
  save manager uuid partner = (keep manager (identified uuid partner), identified uuid partner)

  -- Delete
  unfoldable pub remove : Partners C S → Partner C S → Partners C S
  remove manager partner = record {
    by_id = delete manager.by_id partner.id;
    local_credentials_index = Credentials.remove manager.local_credentials_index partner.id;
  }

  -- UniqCredentials
  unfoldable pub uniq : Partners C S → PartnerId → String → Bool
  uniq manager id local_credentials =
      uniq_credentials manager.local_credentials_index id local_credentials

  -- IsEmpty
  abbrev pub has_none : Partners C S → Bool
  has_none manager = is_empty manager.by_id

  unfoldable pub each_partner :
      (Partner C S → Partner C S) → Map PartnerId (Partner C S) → Map PartnerId (Partner C S)
  each_partner call [] = []
  each_partner call ((id, partner) ∷ rest) = (id, call partner) ∷ each_partner call rest

  -- CancelSubscriptions
  unfoldable pub cancel_subscriptions : Partners C S → Partners C S
  unfolding each_partner
  cancel_subscriptions manager = record manager {
    by_id = each_partner Partner.cancel_subscriptions manager.by_id;
  }
