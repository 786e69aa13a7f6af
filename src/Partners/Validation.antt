-- ===== src/Partners/Validation.antt =====
-- APIPartner.Validate of core/partner.go. The factories of its connector types, each of which adds
-- the errors that it finds, are an argument, and none is the panic of a type assertion.
use ara.Prelude.{
  ◌≡◌, refl, arith, String, Bool, true, false, not, ◌&&◌, Option, none, some, List, [], ◌∷◌,
  if◌then◌else◌, string_dec, string_key, ℕ_discrete,
}
use ara.GoMap.{Map, is_empty}
use ara.Credentials.{PartnerId, split_credentials, uniq_credentials, none_taken}
use ara.GoMap.Keys.{has}
use ara.Connectors.{same}
use ara.CollectSettings.{include}
use ara.Subscription.{append}
use ara.Errors.{Errors, add, add_setting_error, error_blank, error_unique}
use ara.Partner.{Partner, PartnerDefinition}
use ara.PartnerSettings.{
  Settings, setting, is_defined, credentials, both_credentials, local_credential, local_credentials,
}
use ara.Partners.{Partners, uniq, keep, find_by_credential}
use ara.Partners.Owners.{find_by_credential-keep}
use ara.Referentials.Validation.{slug_errors}
use ara.Updates.{bind}

-- a nil map reads as an empty one
abbrev pub settings_of : PartnerDefinition → Settings
settings_of api = elim api.settings [ none ↦ [] | some s ↦ s ]

-- credentials
unfoldable pub api_credentials : PartnerDefinition → String
unfolding setting append
api_credentials api = both_credentials (settings_of api)

-- ValidatePresenceOfSetting, ValidatePresenceOfLocalCredentials, ValidatePresenceOfConnector: what
-- the factories call
unfoldable pub validate_presence_of_setting :
    PartnerDefinition → String → Errors → Option (Errors × Bool)
unfolding add_setting_error
validate_presence_of_setting api key errors =
    if is_defined (settings_of api) key
    then some (errors, true)
    else bind (add_setting_error errors key error_blank) (λ after. some (after, false))

unfoldable pub validate_presence_of_local_credentials :
    PartnerDefinition → Errors → Option (Errors × Bool)
unfolding add_setting_error
validate_presence_of_local_credentials api errors =
    if not (is_defined (settings_of api) local_credential)
      && not (is_defined (settings_of api) local_credentials)
    then bind (add_setting_error errors local_credential error_blank) (λ after. some (after, false))
    else some (errors, true)

unfoldable pub validate_presence_of_connector : PartnerDefinition → String → Errors → Errors × Bool
unfolding include append add
validate_presence_of_connector api connector errors =
    if include api.connector_types connector
    then (errors, true)
    else (add errors (append "Connector " connector) error_blank, false)

-- the loop over the factories
unfoldable pub run_factories : List (Errors → Option Errors) → Errors → Option Errors
run_factories [] errors = some errors
run_factories (validate ∷ rest) errors = bind (validate errors) (λ after. run_factories rest after)

abbrev pub refuse_setting : PartnerDefinition → String → Errors → Option Errors
refuse_setting api key errors =
    if is_defined (settings_of api) key
    then add_setting_error errors key error_unique
    else some errors

module _ {C S : Type 0} where
  -- the loop over the partners there are
  unfoldable pub check_slug : PartnerDefinition → Map PartnerId (Partner C S) → Errors → Errors
  unfolding add
  check_slug api [] errors = errors
  check_slug api ((_, existing) ∷ rest) errors = check_slug api rest (
      if not (same existing.id api.id) && same existing.slug api.slug
      then add errors "Slug" error_unique
      else errors)

  -- the tests of the credentials
  unfoldable pub check_credentials : Partners C S → PartnerDefinition → Errors → Option Errors
  unfolding uniq api_credentials add_setting_error
  check_credentials manager api errors =
      if uniq manager api.id (api_credentials api)
      then some errors
      else bind (refuse_setting api local_credential errors)
          (λ after. refuse_setting api local_credentials after)

  -- Validate; `matches` is MatchString of slugRegexp
  unfoldable pub validate_partner :
      (String → Bool)
      → Partners C S
      → PartnerDefinition
      → List (Errors → Option Errors)
      → Option (Errors × Bool)
  unfolding run_factories check_slug check_credentials slug_errors
  validate_partner matches manager api factories =
      bind (run_factories factories (slug_errors matches api.slug)) (λ errors.
        bind (check_credentials manager api (check_slug api manager.by_id errors))
          (λ all. some (all, is_empty all)))

-- the setting is blank where it is not defined
undefined-setting : (s : Settings) (key : String) → is_defined s key ≡ false → setting s key ≡ ""
unfolding setting
undefined-setting s key n = ground arith

blank-api_credentials :
    (api : PartnerDefinition)
    → is_defined (settings_of api) local_credential ≡ false
    → is_defined (settings_of api) local_credentials ≡ false
    → api_credentials api ≡ ","
unfolding api_credentials append
blank-api_credentials api n m =
    rw
      (
        undefined-setting (settings_of api) local_credential n,
        undefined-setting (settings_of api) local_credentials m,
      )
      refl

-- the credentials "," have no part
free_of_parts :
    {C S : Type 0} (manager : Partners C S) (id : PartnerId) → uniq manager id "," ≡ true
unfolding uniq uniq_credentials split_credentials none_taken string_dec ℕ_discrete
free_of_parts manager id = refl

blank_part : has {K = String} (split_credentials "") "" ≡ true
unfolding split_credentials has string_dec
blank_part = refl

-- Where a definition has neither setting of local credentials, Validate adds no error for them,
-- whoever owns the blank credential, and saving a partner with these settings makes the blank
-- credential find that partner.
pub validate_blank_credentials :
    {C S : Type 0} (manager : Partners C S) (api : PartnerDefinition) (partner : Partner C S)
    (errors : Errors)
    → is_defined (settings_of api) local_credential ≡ false
    → is_defined (settings_of api) local_credentials ≡ false
    → partner.settings ≡ settings_of api
    → (check_credentials manager api errors ≡ some errors)
      × (find_by_credential (keep manager partner) "" ≡ some partner)
unfolding check_credentials credentials
validate_blank_credentials manager api partner errors n m e = (
  rw (blank-api_credentials api n m, free_of_parts manager api.id) refl,
  find_by_credential-keep manager partner "" (rw (e, n, m) blank_part),
)
