-- ===== src/Support/Card.antt =====
-- services/support-service/internal/domain/status/card.go with the card of domain/entity/card.go.
-- `time.AddDate` of the standard library is the parameter `add_days`.
pub mod Machine
use seckill_go.Prelude.{
  if◌then◌else◌, get_or, ℤ, pos, le_ℤ, eq_ℤ, String, Bool, true, false, not, ◌||◌, Option, none,
  some, List, [], ◌∷◌,
}

-- The constants of the status, and any other number.
pub data CardStatus : Type 0 where
  inactive : CardStatus
  active : CardStatus
  frozen : CardStatus
  expired : CardStatus
  unknown : ℤ → CardStatus

pub record FreeCard : Type 0 where
  pub card_no : String
  pub card_name : String
  pub face_value : ℤ
  pub user_id : ℤ
  pub order_no : String
  pub status : CardStatus
  pub valid_days : ℤ
  pub activated_at : Option ℤ
  pub expire_at : Option ℤ
  pub created_at : ℤ

abbrev pub card_status_eq : CardStatus → CardStatus → Bool
card_status_eq inactive inactive = true
card_status_eq active active = true
card_status_eq frozen frozen = true
card_status_eq expired expired = true
card_status_eq (unknown a) (unknown b) = eq_ℤ a b
card_status_eq _ _ = false

-- `CardAllowedTransitions`
card_allowed_transitions : CardStatus → Option (List CardStatus)
card_allowed_transitions inactive = some (active ∷ frozen ∷ expired ∷ [])
card_allowed_transitions active = some (frozen ∷ expired ∷ [])
card_allowed_transitions frozen = some (active ∷ expired ∷ [])
card_allowed_transitions expired = some []
card_allowed_transitions (unknown a) = none

-- `slices.Contains`
holds_card : CardStatus → List CardStatus → Bool
holds_card to [] = false
holds_card to (s ∷ rest) = card_status_eq s to || holds_card to rest

unfoldable pub can_card_transition_to : CardStatus → CardStatus → Bool
unfolding card_allowed_transitions holds_card
can_card_transition_to from to = elim (card_allowed_transitions from) [
  | none ↦ false
  | some targets ↦ holds_card to targets
]

-- The days that a card is valid for, 365 where none are given.
abbrev pub valid_days_or_year : ℤ → ℤ
valid_days_or_year days = if le_ℤ days (pos 0) then pos 365 else days

unfoldable pub transit_card_active : (ℤ → ℤ → ℤ) → FreeCard → ℤ → FreeCard × Bool
unfolding can_card_transition_to
transit_card_active add_days c now =
    if card_status_eq c.status active
    then (c, true)
    else if not (can_card_transition_to c.status active)
    then (c, false)
    else (
      record c {
        status = active;
        activated_at = some (get_or c.activated_at now);
        valid_days = valid_days_or_year c.valid_days;
        expire_at = some (get_or c.expire_at (add_days now (valid_days_or_year c.valid_days)));
      },
      true,
    )

unfoldable pub transit_card_frozen : FreeCard → FreeCard × Bool
unfolding can_card_transition_to
transit_card_frozen c =
    if card_status_eq c.status frozen
    then (c, true)
    else if not (can_card_transition_to c.status frozen)
    then (c, false)
    else (record c { status = frozen }, true)

unfoldable pub transit_card_expired : FreeCard → FreeCard × Bool
unfolding can_card_transition_to
transit_card_expired c =
    if card_status_eq c.status expired
    then (c, true)
    else if not (can_card_transition_to c.status expired)
    then (c, false)
    else (record c { status = expired }, true)
