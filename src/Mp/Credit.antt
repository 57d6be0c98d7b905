-- ===== src/Mp/Credit.antt =====
-- The credit of a channel: the loop on `remotecredit` in `optimsoc_mp_channel_send`.
use optimsoc.Prelude.{
  ℕ, ◌≡◌, ◌≢◌, refl, ◌∙◌, true, false, List, [], ◌∷◌, ◌++◌, arith, ◌==◌, if◌then◌else◌, sub32, done,
}
use native.Mathlib.Decide.{ℕ_discrete}
use optimsoc.Sync.{Cas}
use optimsoc.Endpoint.{Endpoint}
use optimsoc.Mp.{take_credit}

-- What the other cores make of the credit while the loop runs: the round in which none of them
-- changes it comes after those of `rounds`.
abbrev pub credit_after : (rounds : List (ℕ → ℕ)) → ℕ → ℕ
credit_after [] credit = credit
credit_after (others ∷ rounds) credit = credit_after rounds (others credit)

-- Each function of `rounds` changes the credit it gets there.
abbrev pub Disturbs : (rounds : List (ℕ → ℕ)) → ℕ → Type 0
Disturbs [] credit = Unit
Disturbs (others ∷ rounds) credit = (others credit ≢ credit) × Disturbs rounds (others credit)

module _ ⦃cpu : Cas⦄ where
  take_credit-step :
      (others : ℕ → ℕ) (rounds : List (ℕ → ℕ)) (ep : Endpoint)
      → take_credit (others ∷ rounds) ep ≡ (
          if others ep.remotecredit == ep.remotecredit
          then done (record ep { remotecredit = sub32 ep.remotecredit 1 })
          else take_credit rounds (record ep { remotecredit = others ep.remotecredit }))
  unfolding take_credit
  take_credit-step others rounds ep = elim (ℕ_discrete (others ep.remotecredit) ep.remotecredit) [
    | yes e ↦ rw (e, cpu.cas_hit ep.remotecredit (sub32 ep.remotecredit 1)) (ground arith)
    | no n ↦
        rw (cpu.cas_miss (others ep.remotecredit) ep.remotecredit (sub32 ep.remotecredit 1) n)
          (ground arith)
  ]

  -- Whatever the other cores did to the credit in the rounds before, the first round in which they
  -- leave it alone takes one from what they made of it, and the loop ends there.
  pub take_credit_lem :
      (rounds after : List (ℕ → ℕ)) (ep : Endpoint)
      → Disturbs rounds ep.remotecredit
      → take_credit (rounds ++ ((λ w. w) ∷ after)) ep
        ≡ done (record ep { remotecredit = sub32 (credit_after rounds ep.remotecredit) 1 })
  take_credit_lem [] after ep d =
      let hit : (ep.remotecredit == ep.remotecredit) ≡ true = ground arith in
      take_credit-step (λ w. w) after ep ∙ rw hit refl
  take_credit_lem (others ∷ rounds) after ep (ne, d) =
      let miss : (others ep.remotecredit == ep.remotecredit) ≡ false = ground arith in
      take_credit-step others (rounds ++ ((λ w. w) ∷ after)) ep
      ∙ rw miss
          (take_credit_lem rounds after (record ep { remotecredit = others ep.remotecredit }) d)
