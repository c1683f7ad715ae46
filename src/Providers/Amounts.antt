-- ===== src/Providers/Amounts.antt =====
-- services/payment_providers.py: an amount that a provider reports against the amount of a session.
use mikrotik.Prelude.{ℕ, ◌*◌, ◌≡◌, true, false, arith, some}
use mikrotik.Providers.{amount_matches}

-- A whole number of shillings matches an amount in cents exactly when it is a hundredth of it.
pub amount_matches-whole :
    (shillings cents : ℕ)
    → (amount_matches (some (record { negative = false; digits = shillings; places = 0 })) cents
          ≡ true
        → shillings * 100 ≡ cents)
      × (shillings * 100 ≡ cents
          → amount_matches
              (some (record { negative = false; digits = shillings; places = 0 }))
              cents
            ≡ true)
unfolding amount_matches
amount_matches-whole shillings cents = (λ h. ground arith, λ h. ground arith)
