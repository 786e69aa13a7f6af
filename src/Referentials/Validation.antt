-- ===== src/Referentials/Validation.antt =====
-- APIReferential.Validate of core/referential.go. `matches` is MatchString of slugRegexp.
use ara.Prelude.{
  String, ◌≡◌, ◌≢◌, ◌↔◌, Bool, true, not, ◌&&◌, [], ◌∷◌, ite, if◌then◌else◌, string_dec, string_key,
  arith, Bool-cases, inl, inr,
}
use ara.GoMap.{is_empty}
use ara.Connectors.{same}
use ara.Errors.{Errors, no_errors, add, error_blank, error_slug_format, error_unique, is_empty-add}
use ara.Referentials.{Referentials}

module _ (matches : String → Bool) where
  -- the tests of the slug alone
  unfoldable pub slug_errors : String → Errors
  slug_errors slug =
      ite (string_dec slug "") (add no_errors "Slug" error_blank)
        (if matches slug then no_errors else add no_errors "Slug" error_slug_format)

  -- the loop over the referentials there are
  unfoldable pub check_unique : String → String → Referentials → Errors → Errors
  check_unique id slug [] errors = errors
  check_unique id slug ((_, existing) ∷ rest) errors = check_unique id slug rest (
      if not (same existing.id id) && same slug existing.slug
      then add errors "Slug" error_unique
      else errors)

  -- Validate, of a definition with an id and a slug
  unfoldable pub validate : Referentials → String → String → Bool
  unfolding slug_errors check_unique
  validate referentials id slug = is_empty (check_unique id slug referentials (slug_errors slug))

  -- no other referential has the slug
  abbrev pub IsFree : String → String → Referentials → Type 0
  IsFree id slug [] = Unit
  IsFree id slug ((_, existing) ∷ rest) =
      (existing.id ≢ id → slug ≢ existing.slug) × IsFree id slug rest

  empty-slug_errors :
      (slug : String) → (is_empty (slug_errors slug) ≡ true) ↔ ((slug ≢ "") × (matches slug ≡ true))
  unfolding slug_errors is_empty
  empty-slug_errors slug = ground (
    arith,
    is_empty-add no_errors "Slug" error_blank,
    is_empty-add no_errors "Slug" error_slug_format,
  )

  empty-check_unique :
      (id slug : String) (referentials : Referentials) (errors : Errors)
      → (is_empty (check_unique id slug referentials errors) ≡ true)
        ↔ ((is_empty errors ≡ true) × IsFree id slug referentials)
  unfolding check_unique
  empty-check_unique id slug [] errors = (λ e. (e, tt), λ p. p.0)
  empty-check_unique id slug ((k, existing) ∷ rest) errors =
      elim (Bool-cases (not (same existing.id id) && same slug existing.slug)) [
        | inl clash ↦
            let later = empty-check_unique id slug rest (add errors "Slug" error_unique) in
            let filled = is_empty-add errors "Slug" error_unique in
            (
              λ e. absurd (ground (arith, (later.0 (ground arith)).0)),
              λ p. absurd (ground (arith, p.1.0)),
            )
        | inr free ↦
            let later = empty-check_unique id slug rest errors in
            (
              λ e. let (a, b) = later.0 (ground arith) in (a, (λ n s. ground arith, b)),
              λ p. rw free (later.1 (p.0, p.1.1)),
            )
      ]

  -- Validate accepts the definition of a referential exactly if its slug is not empty, has the
  -- form of a slug, and no referential with another id has it.
  pub validate_iff :
      (referentials : Referentials) (id slug : String)
      → (validate referentials id slug ≡ true)
        ↔ ((slug ≢ "") × (matches slug ≡ true) × IsFree id slug referentials)
  unfolding validate
  validate_iff referentials id slug =
      let unique = empty-check_unique id slug referentials (slug_errors slug) in
      let own = empty-slug_errors slug in
      (
        λ e. let (a, b) = unique.0 e in let (c, d) = own.0 a in (c, d, b),
        λ (c, d, b). unique.1 (own.1 (c, d), b),
      )
