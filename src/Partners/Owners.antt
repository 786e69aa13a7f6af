-- ===== src/Partners/Owners.antt =====
-- Who a credential finds after Save and Delete of core/partner.go.
use ara.Prelude.{
  String, ◌≡◌, ◌≢◌, refl, true, Option, none, some, arith, string_dec, string_key, if_neg, sym, ◌∙◌,
}
use ara.GoMap.{get, get-set, get-delete}
use ara.GoMap.Keys.{has}
use ara.Credentials
use ara.Credentials.{PartnerId, split_credentials}
use ara.Credentials.Ownership.{
  IsExact, find-index, find-remove, index-IsExact, index_keeps_others, remove-IsExact,
}
use ara.PartnerSettings.{credentials}
use ara.Partner.{Partner}
use ara.Partners.{Partners, owner, find_by_credential, identified, keep, save, remove, uniq}

module _ {C S : Type 0} where
  -- The partners stand under their own ids, the index agrees with itself, and a credential finds
  -- only partners that there are.
  pub record IsSound (manager : Partners C S) : Type 0 where
    pub named :
        (id : PartnerId) (partner : Partner C S)
        → get manager.by_id id ≡ some partner
        → partner.id ≡ id
    pub exact : IsExact manager.local_credentials_index
    pub kept :
        (c : String) (id : PartnerId)
        → Credentials.find manager.local_credentials_index c ≡ some id
        → (partner : Partner C S) × (get manager.by_id id ≡ some partner)

  -- A saved partner whose credentials UniqCredentials allows is found by each of them.
  pub find_by_credential-keep :
      (manager : Partners C S) (partner : Partner C S) (c : String)
      → has (split_credentials (credentials partner.settings)) c ≡ true
      → find_by_credential (keep manager partner) c ≡ some partner
  unfolding find_by_credential keep
  find_by_credential-keep manager partner c h = ground (
    arith,
    find-index manager.local_credentials_index partner.id (credentials partner.settings) c,
    get-set manager.by_id partner.id partner partner.id,
  )

  kept-cases :
      (manager : Partners C S) (partner : Partner C S) (c : String) (id : PartnerId)
      → IsSound manager
      → Credentials.find (keep manager partner).local_credentials_index c ≡ some id
      → (p : Partner C S) × (get (keep manager partner).by_id id ≡ some p)
  unfolding keep
  kept-cases manager partner c id x e = elim (string_dec partner.id id) [
    | yes q ↦ (partner, ground (arith, get-set manager.by_id partner.id partner id))
    | no n ↦
        let (p, g) = x.kept c id (
          ground (
            arith,
            find-index manager.local_credentials_index partner.id (credentials partner.settings) c,
          )) in
        (p, ground (arith, get-set manager.by_id partner.id partner id))
  ]

  pub keep-IsSound :
      (manager : Partners C S) (partner : Partner C S)
      → IsSound manager
      → uniq manager partner.id (credentials partner.settings) ≡ true
      → IsSound (keep manager partner)
  unfolding uniq
  keep-IsSound manager partner x u = record {
    named = λ id p e.
        unfold keep in ground (arith, get-set manager.by_id partner.id partner id, x.named id p);
    exact =
        unfold keep in
        index-IsExact manager.local_credentials_index partner.id (credentials partner.settings) u
          x.exact;
    kept = λ c id e. kept-cases manager partner c id x e;
  }

  removed-cases :
      (manager : Partners C S) (partner : Partner C S) (c : String) (id : PartnerId)
      → IsSound manager
      → Credentials.find (remove manager partner).local_credentials_index c ≡ some id
      → (p : Partner C S) × (get (remove manager partner).by_id id ≡ some p)
  unfolding remove
  removed-cases manager partner c id x e =
      let f : Credentials.find manager.local_credentials_index c ≡ some id =
        ground (arith, find-remove manager.local_credentials_index partner.id c) in
      let (p, g) = x.kept c id f in
      (
        p,
        ground (
          arith,
          find-remove manager.local_credentials_index partner.id c,
          x.exact.owned c id f,
          get-delete manager.by_id partner.id id,
        ),
      )

  owner-remove :
      (manager : Partners C S) (partner : Partner C S) (o : Option PartnerId)
      → ((id : PartnerId) → o ≡ some id → partner.id ≢ id)
      → owner (remove manager partner) o ≡ owner manager o
  unfolding remove
  owner-remove manager partner none h = refl
  owner-remove manager partner (some id) h =
      ground (arith, get-delete manager.by_id partner.id id, h id refl)

  identified_same :
      (uuid : PartnerId) (partner : Partner C S)
      → partner.id ≢ ""
      → identified uuid partner ≡ partner
  unfolding identified
  identified_same uuid partner n = if_neg (string_dec partner.id "") n _ _

  removed-IsExact :
      (manager : Partners C S) (partner : Partner C S)
      → IsSound manager
      → IsExact (remove manager partner).local_credentials_index
  unfolding remove
  removed-IsExact manager partner x =
      remove-IsExact manager.local_credentials_index partner.id x.exact

  removed_owner :
      (manager : Partners C S) (partner : Partner C S) (c : String) (p : Partner C S)
      (o : Option PartnerId)
      → IsSound manager
      → Credentials.find manager.local_credentials_index c ≡ o
      → find_by_credential (remove manager partner) c ≡ some p
      → (find_by_credential manager c ≡ some p) × (p.id ≢ partner.id)
  unfolding find_by_credential remove
  removed_owner manager partner c p none x e f =
      absurd (ground (arith, find-remove manager.local_credentials_index partner.id c))
  removed_owner manager partner c p (some id) x e f = elim (string_dec partner.id id) [
    | yes q ↦ absurd (
        ground
          (arith, find-remove manager.local_credentials_index partner.id c, x.exact.owned c id e))
    | no n ↦
        let g : get manager.by_id id ≡ some p = ground (
          arith,
          find-remove manager.local_credentials_index partner.id c,
          get-delete manager.by_id partner.id id,
        ) in
        (rw e g, λ r. n (sym r ∙ x.named id p g))
  ]

  keep_other :
      (manager : Partners C S) (partner p : Partner C S) (c : String) (o : Option PartnerId)
      → IsSound manager
      → uniq manager partner.id (credentials partner.settings) ≡ true
      → Credentials.find manager.local_credentials_index c ≡ o
      → owner manager o ≡ some p
      → p.id ≢ partner.id
      → find_by_credential (keep manager partner) c ≡ some p
  unfolding find_by_credential keep uniq
  keep_other manager partner p c none x u e g n = cc
  keep_other manager partner p c (some id) x u e g n =
      let q : p.id ≡ id = x.named id p g in
      ground (
        arith,
        index_keeps_others manager.local_credentials_index partner.id (credentials partner.settings)
            c id u x.exact (λ r. n (q ∙ r)) e,
        get-set manager.by_id partner.id partner id,
      )

  pub find_by_credential-keep_other :
      (manager : Partners C S) (partner p : Partner C S) (c : String)
      → IsSound manager
      → uniq manager partner.id (credentials partner.settings) ≡ true
      → find_by_credential manager c ≡ some p
      → p.id ≢ partner.id
      → find_by_credential (keep manager partner) c ≡ some p
  find_by_credential-keep_other manager partner p c x u g n =
      keep_other manager partner p c (Credentials.find manager.local_credentials_index c) x u refl
        (unfold find_by_credential in g) n

  -- On a sound manager, where UniqCredentials allows the credentials of a partner with an id, Save
  -- keeps the manager sound, each of its credentials then finds the partner, and a credential that
  -- found another partner still finds that one.
  pub save-KeepsOwners :
      (manager : Partners C S) (uuid : PartnerId) (partner : Partner C S)
      → IsSound manager
      → partner.id ≢ ""
      → uniq manager partner.id (credentials partner.settings) ≡ true
      → IsSound (save manager uuid partner).0
        × ((c : String)
            → has (split_credentials (credentials partner.settings)) c ≡ true
            → find_by_credential (save manager uuid partner).0 c ≡ some partner)
        × ((c : String) (p : Partner C S)
            → find_by_credential manager c ≡ some p
            → p.id ≢ partner.id
            → find_by_credential (save manager uuid partner).0 c ≡ some p)
  unfolding save
  save-KeepsOwners manager uuid partner x i u = rw (identified_same uuid partner i) (
    keep-IsSound manager partner x u,
    λ c h. find_by_credential-keep manager partner c h,
    λ c p g n. find_by_credential-keep_other manager partner p c x u g n,
  )

  -- On a sound manager Delete keeps it sound, and a credential then finds the partner that it found
  -- before, unless that was the deleted one.
  pub remove-KeepsOwners :
      (manager : Partners C S) (partner : Partner C S)
      → IsSound manager
      → IsSound (remove manager partner)
        × ((c : String) (p : Partner C S)
            → find_by_credential (remove manager partner) c ≡ some p
            → (find_by_credential manager c ≡ some p) × (p.id ≢ partner.id))
  remove-KeepsOwners manager partner x = (
    record {
      named = λ id p e.
          unfold remove in ground (arith, get-delete manager.by_id partner.id id, x.named id p);
      exact = removed-IsExact manager partner x;
      kept = λ c id e. removed-cases manager partner c id x e;
    },
    λ c p e.
        removed_owner manager partner c p (Credentials.find manager.local_credentials_index c) x
          refl e,
  )
