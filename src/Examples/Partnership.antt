-- ===== src/Examples/Partnership.antt =====
-- Partners, their settings and connectors, situations and the channel at concrete inputs.
use ara.Prelude.{
  ℕ, String, ◌≡◌, ◌≢◌, refl, some, none, [], ◌∷◌, ◌++◌, arith, string_dec, string_key, true, false,
  differ, dec_le, ℕ_discrete,
}
use ara.GoMap.{get, set, delete, IsDistinct}
use ara.GoMap.Keys.{has}
use ara.Credentials
use ara.Credentials.{split_credentials}
use ara.Credentials.Ownership.{empty-IsExact}
use ara.CollectSettings.{include}
use ara.PartnerSettings.{
  is_defined, local_credential, local_credentials, Settings, Duration, credentials,
}
use ara.Connectors.{dispatcher, broadcaster}
use ara.Channel.{Channel}
use ara.Partner
use ara.Partner.{Partner, PartnerDefinition}
use ara.Partners
use ara.Partners.Validation.{settings_of, check_credentials, validate_blank_credentials}
use ara.Partners.{Partners, keep, find_by_credential, save, uniq}
use ara.Partners.Owners.{IsSound, save-KeepsOwners}
use ara.Schedules.{Stamp}
use ara.Store.{found}
use ara.Situations
use ara.Situations.{Situation, Situations}
use ara.SituationUpdates.{SituationUpdateEvent, update_all, find_situation, update_all-cut}
use ara.Examples.Samples.{quay}

abbrev sncf : Partner Unit Unit
sncf = record (Partner.new "sncf") {
  id = "p1";
  settings = ("local_credential", "a") ∷ ("local_credentials", "b,c") ∷ [];
}

abbrev nobody : Partners Unit Unit
nobody = Partners.empty

nobody-IsSound : IsSound nobody
unfolding get Credentials.find
nobody-IsSound = record {
  named = λ id partner e. ground arith;
  exact = empty-IsExact;
  kept = λ c id e. ground arith;
}

has_id : ◌≢◌ {A = String} "p1" ""
unfolding string_dec
has_id = differ "p1" "" refl

allowed : uniq nobody "p1" (credentials sncf.settings) ≡ true
unfolding uniq Credentials.uniq_credentials string_dec credentials get ℕ_discrete dec_le delete set
allowed = refl

save-KeepsOwners_example :
    IsSound (save nobody "p2" sncf).0
    × ((c : String)
        → has (split_credentials (credentials sncf.settings)) c ≡ true
        → find_by_credential (save nobody "p2" sncf).0 c ≡ some sncf)
    × ((c : String) (p : Partner Unit Unit)
        → find_by_credential nobody c ≡ some p
        → p.id ≢ "p1"
        → find_by_credential (save nobody "p2" sncf).0 c ≡ some p)
save-KeepsOwners_example = save-KeepsOwners nobody "p2" sncf nobody-IsSound has_id allowed

no_types : include [] dispatcher ≡ false
unfolding include
no_types = refl

no_broadcaster : include [] broadcaster ≡ false
unfolding include
no_broadcaster = refl

abbrev old_settings : Settings
old_settings = ("collect.persistent", "true") ∷ []

abbrev new_settings : Settings
new_settings = ("local_url", "http://localhost") ∷ []

new_settings-IsDistinct : IsDistinct new_settings
unfolding get
new_settings-IsDistinct = (refl, tt)

abbrev narrow : Channel ℕ
narrow = record { capacity = 2; waiting = 1 ∷ [] }

abbrev a_minute : String → Duration
a_minute s = record { is_negative = false; magnitude = 60 }

abbrev monday : Stamp
monday = record { instant = 7; reading = 0; location = 1 }

abbrev strike : Situation
strike = record Situations.new {
  id = "s1";
  recorded_at = monday;
  object_ids = ("internal", quay) ∷ [];
}

abbrev unhashed : String → String
unhashed s = s

abbrev known : Situations
known = (Situations.save (Situations.empty true) "s1" strike).0

abbrev repeated : SituationUpdateEvent
repeated = record {
  origin = "partner1";
  id = "e1";
  created_at = 6;
  recorded_at = monday;
  situation_object_id = quay;
  version = 1;
  producer_ref = "";
  attributes = record {
    format = "";
    channel = "Information";
    references = [];
    line_sections = [];
    messages = [];
    valid_until = 100;
  };
}

strike_is_there : find_situation unhashed (update_all unhashed [] known) repeated ≡ found strike
unfolding find_situation update_all ara.Unindexed.tx_find_by_object_id ara.Transaction.search_saved
    ara.Unindexed.find_by_object_id Situations.save ara.Unindexed.keep set string_dec get
    ara.Store.identified
strike_is_there = refl

update_all-cut_example :
    update_all unhashed ([] ++ ("s2", repeated) ∷ ("s3", repeated) ∷ []) known
    ≡ update_all unhashed [] known
update_all-cut_example =
    update_all-cut unhashed [] (("s3", repeated) ∷ []) "s2" repeated known strike strike_is_there
      refl

abbrev undeclared : PartnerDefinition
undeclared = record { id = "p2"; slug = "new"; name = "New"; settings = none; connector_types = [] }

abbrev newcomer : Partner Unit Unit
newcomer = record (Partner.new "new") { id = "p2" }

no_credential : is_defined (settings_of undeclared) local_credential ≡ false
unfolding get
no_credential = refl

no_credentials : is_defined (settings_of undeclared) local_credentials ≡ false
unfolding get
no_credentials = refl

validate_blank_credentials_example :
    (check_credentials nobody undeclared [] ≡ some [])
    × (find_by_credential (keep nobody newcomer) "" ≡ some newcomer)
validate_blank_credentials_example =
    validate_blank_credentials nobody undeclared newcomer [] no_credential no_credentials refl
