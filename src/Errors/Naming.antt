-- ===== src/Errors/Naming.antt =====
-- The tables name each constant of the library by its own name, and nothing else.
use quicsend.Base.{
  ℤ, int_eq, int_eq_iff, ◌≡◌, refl, sym, subst, ◌∙◌, ◌⊎◌, ◌↔◌, inl, inr, List, [], ◌∷◌, String,
  str_eq, eq_iff, Bool, true, false, ◌||◌, ◌&&◌, Bool-cases, arith, All,
}
use quicsend.Errors.{
  switch, h3_cases, quiche_cases, quiche_h3_error_to_string, quiche_error_to_string,
}

-- Whether a `switch` has a case with that label.
abbrev pub among : String → List (String × String) → Bool
among label [] = false
among label ((own, text) ∷ cases) = str_eq own label || among label cases

-- A `switch` compiles only where no two labels have one value.
abbrev pub Compiles : (String → ℤ) → List (String × String) → Type 0
Compiles code cases =
    (a b : String) → among a cases ≡ true → among b cases ≡ true → code a ≡ code b → a ≡ b

-- Each case returns its own label.
abbrev Verbatim : List (String × String) → Type 0
Verbatim cases = All (λ c. c.1 ≡ c.0) cases

abbrev verbatim : List (String × String) → Bool
verbatim [] = true
verbatim ((label, text) ∷ cases) = str_eq text label && verbatim cases

verbatim-Verbatim : (cases : List (String × String)) → verbatim cases ≡ true → Verbatim cases
verbatim-Verbatim [] h = tt
verbatim-Verbatim ((label, text) ∷ cases) h =
    (ground (arith, eq_iff text label), verbatim-Verbatim cases (ground arith))

module _ (code : String → ℤ) where
  -- What is returned is a label with that value, or the default.
  switch-label :
      (cases : List (String × String)) (error : ℤ)
      → Verbatim cases
      → (switch code cases error ≡ "UNKNOWN_ERROR")
        ⊎ ((among (switch code cases error) cases ≡ true)
            × (code (switch code cases error) ≡ error))
  unfolding switch
  switch-label [] error v = inl refl
  switch-label ((label, text) ∷ cases) error v = elim (Bool-cases (int_eq error (code label))) [
    | inl same ↦
        let e = (int_eq_iff error (code label)).0 same in
        inr (rw (same, v.0) (ground (arith, eq_iff label label)))
    | inr other ↦ elim (switch-label cases error v.1) [
      | inl default ↦ inl (rw other default)
      | inr (found, e) ↦
          let skipped : switch code cases error ≡ switch code ((label, text) ∷ cases) error =
            rw other refl in
          inr (
            subst (λ t. (among t ((label, text) ∷ cases) ≡ true) × (code t ≡ error)) skipped
              (ground (arith, eq_iff label (switch code cases error)), e))
    ]
  ]

  -- `all` is the whole `switch`, and `cases` what is left of it.
  switch-code :
      (all cases : List (String × String)) (label : String)
      → Verbatim cases
      → ((a : String) → among a cases ≡ true → code a ≡ code label → a ≡ label)
      → among label cases ≡ true
      → switch code cases (code label) ≡ label
  unfolding switch
  switch-code all [] label v injective h = cc
  switch-code all ((own, text) ∷ cases) label v injective h =
      elim (Bool-cases (int_eq (code label) (code own))) [
        | inl same ↦
            let e = (int_eq_iff (code label) (code own)).0 same in
            rw same (v.0 ∙ injective own (ground (arith, eq_iff own own)) (sym e))
        | inr other ↦ rw other (
            switch-code all cases label v.1 (λ a found. injective a (ground arith))
              (ground (arith, eq_iff own label, int_eq_iff (code label) (code own))))
      ]

  switch_iff :
      (cases : List (String × String)) (label : String) (error : ℤ)
      → Verbatim cases
      → among "UNKNOWN_ERROR" cases ≡ false
      → Compiles code cases
      → among label cases ≡ true
      → (switch code cases error ≡ label) ↔ (code label ≡ error)
  switch_iff cases label error v unknown compiles h = (
    λ e. elim (switch-label cases error v) [
      | inl default ↦ absurd (ground (arith, sym e ∙ default))
      | inr (found, same) ↦ rw e at same
    ],
    λ e. rw (← e) (switch-code cases cases label v (λ a found. compiles a label found h) h),
  )

  -- For a constant of the library that has a case in quiche_h3_error_to_string: the function
  -- returns its name exactly for the value of the constant. No two cases have one value.
  pub quiche_h3_error_to_string_iff :
      (label : String) (error : ℤ)
      → Compiles code h3_cases
      → among label h3_cases ≡ true
      → (quiche_h3_error_to_string code error ≡ label) ↔ (code label ≡ error)
  unfolding quiche_h3_error_to_string
  quiche_h3_error_to_string_iff label error compiles h =
      switch_iff h3_cases label error (verbatim-Verbatim h3_cases refl) refl compiles h

  -- For a constant of the library that has a case in quiche_error_to_string: the function returns
  -- its name exactly for the value of the constant. No two cases have one value.
  pub quiche_error_to_string_iff :
      (label : String) (error : ℤ)
      → Compiles code quiche_cases
      → among label quiche_cases ≡ true
      → (quiche_error_to_string code error ≡ label) ↔ (code label ≡ error)
  unfolding quiche_error_to_string
  quiche_error_to_string_iff label error compiles h =
      switch_iff quiche_cases label error (verbatim-Verbatim quiche_cases refl) refl compiles h
