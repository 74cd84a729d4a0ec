-- ===== src/Support/Card/Machine.antt =====
-- The card's status machine over every sequence of transitions.
use seckill_go.Prelude.{is_some, ℤ, pos, ◌<ℤ◌, ◌≡◌, refl, true, List, [], ◌∷◌, arith, ◌⊎◌}
use seckill_go.Support.Card.{
  expired, FreeCard, transit_card_active, transit_card_frozen, transit_card_expired, inactive,
  frozen,
}

pub data CardStep : Type 0 where
  to_active : (now : ℤ) → CardStep
  to_frozen : CardStep
  to_expired : CardStep

abbrev pub take_step : (ℤ → ℤ → ℤ) → CardStep → FreeCard → FreeCard
take_step add_days (to_active now) c = (transit_card_active add_days c now).0
take_step add_days to_frozen c = (transit_card_frozen c).0
take_step add_days to_expired c = (transit_card_expired c).0

pub take_steps : (ℤ → ℤ → ℤ) → List CardStep → FreeCard → FreeCard
take_steps add_days [] c = c
take_steps add_days (s ∷ steps) c = take_steps add_days steps (take_step add_days s c)

-- An expired card never changes again, whatever transitions are asked for.
pub expired_is_final :
    (add_days : ℤ → ℤ → ℤ) (steps : List CardStep) (c : FreeCard)
    → c.status ≡ expired
    → take_steps add_days steps c ≡ c
unfolding take_steps transit_card_active transit_card_frozen transit_card_expired
expired_is_final add_days [] c h = refl
expired_is_final add_days (s ∷ steps) c h = ground (arith, expired_is_final add_days steps c h)

-- The fields that an activation sets.
abbrev pub KeepsTerm : FreeCard → FreeCard → Type 0
KeepsTerm c c' =
    (c'.activated_at ≡ c.activated_at)
    × (c'.expire_at ≡ c.expire_at)
    × (c'.valid_days ≡ c.valid_days)
    × (c'.card_no ≡ c.card_no)

abbrev pub HasTerm : FreeCard → Type 0
HasTerm c = (is_some c.activated_at ≡ true) × (is_some c.expire_at ≡ true) × (pos 0 <ℤ c.valid_days)

step_keeps :
    (add_days : ℤ → ℤ → ℤ) (s : CardStep) (c : FreeCard)
    → HasTerm c
    → KeepsTerm c (take_step add_days s c) × HasTerm (take_step add_days s c)
unfolding transit_card_active transit_card_frozen transit_card_expired
step_keeps add_days s c h = ground arith

keeps_term :
    (add_days : ℤ → ℤ → ℤ) (steps : List CardStep) (c : FreeCard)
    → HasTerm c
    → KeepsTerm c (take_steps add_days steps c)
unfolding take_steps
keeps_term add_days [] c h = (refl, refl, refl, refl)
keeps_term add_days (s ∷ steps) c h =
    let (kept, next) = step_keeps add_days s c h in
    ground (arith, kept, keeps_term add_days steps (take_step add_days s c) next)

activation-HasTerm :
    (add_days : ℤ → ℤ → ℤ) (c : FreeCard) (now : ℤ)
    → (c.status ≡ inactive) ⊎ (c.status ≡ frozen)
    → HasTerm (transit_card_active add_days c now).0
unfolding transit_card_active
activation-HasTerm add_days c now h = ground arith

-- Once an inactive or frozen card is activated, it has an activation time, an expiry and a positive
-- number of days, and no sequence of transitions after that changes these or its number: to freeze
-- it and activate it again does not make it last longer.
pub term_is_kept :
    (add_days : ℤ → ℤ → ℤ) (steps : List CardStep) (c : FreeCard) (now : ℤ)
    → (c.status ≡ inactive) ⊎ (c.status ≡ frozen)
    → HasTerm (transit_card_active add_days c now).0
      × KeepsTerm
          (transit_card_active add_days c now).0
          (take_steps add_days steps (transit_card_active add_days c now).0)
term_is_kept add_days steps c now h =
    let held = activation-HasTerm add_days c now h in (held, keeps_term add_days steps _ held)
