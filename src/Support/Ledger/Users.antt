-- ===== src/Support/Ledger/Users.antt =====
-- The users and their index by phone number.
use seckill_go.Prelude.{
  Option-cases, ℤ, delete, lookup, lookup-delete, lookup-insert, String, ◌≡◌, inl, inr, false,
  Option, none, some, List, [], ◌∷◌, arith, str_eq, eq_iff, pos, lookup-empty, ◌≢◌, eq_refl,
}
use seckill_go.Support.Ledger.{
  User, SupportLedger, upsert_user, new_support_ledger, get_user_by_phone, get_user_by_id,
}

abbrev HasPhone : String → ℤ → Option User → Type 0
HasPhone phone id none = ⊥
HasPhone phone id (some user) = (user.phone ≡ phone) × (user.id ≡ id)

-- What an entry of the index says: the user of that id has that number.
abbrev Entry : String → SupportLedger → Option ℤ → Type 0
Entry phone l none = Unit
Entry phone l (some id) = (str_eq phone "" ≡ false) × HasPhone phone id (l.users_by_id id)

abbrev pub IsIndexed : SupportLedger → Type 0
IsIndexed l = (phone : String) → Entry phone l (lookup phone l.user_id_by_phone)

pub upserts : List User → SupportLedger → SupportLedger
upserts [] l = l
upserts (user ∷ users) l = upserts users (upsert_user user l).1

upsert_user-IsIndexed :
    (user : User) (l : SupportLedger) → IsIndexed l → IsIndexed (upsert_user user l).1
unfolding upsert_user
upsert_user-IsIndexed user l h phone = elim (Option-cases (l.users_by_id user.id)) [
  | inl new ↦ ground (
    arith,
    new,
    h phone,
    eq_iff user.phone phone,
    eq_iff phone "",
    lookup-insert user.phone phone user.id l.user_id_by_phone,
  )
  | inr (old, known) ↦ ground (
    arith,
    known,
    h phone,
    eq_iff user.phone phone,
    eq_iff old.phone phone,
    eq_iff old.phone user.phone,
    eq_iff phone "",
    eq_iff old.phone "",
    lookup-delete old.phone phone l.user_id_by_phone,
    lookup-insert user.phone phone user.id l.user_id_by_phone,
    lookup-insert user.phone phone user.id (delete old.phone l.user_id_by_phone),
  )
]

upserts-IsIndexed :
    (users : List User) (l : SupportLedger) → IsIndexed l → IsIndexed (upserts users l)
unfolding upserts
upserts-IsIndexed [] l h = h
upserts-IsIndexed (user ∷ users) l h =
    upserts-IsIndexed users (upsert_user user l).1 (upsert_user-IsIndexed user l h)

-- What the lookup by phone says of the ledger.
abbrev pub Found : String → SupportLedger → Option User → Type 0
Found phone l none = Unit
Found phone l (some user) = (user.phone ≡ phone) × (get_user_by_id user.id l ≡ some user)

IsIndexed-Found :
    (phone : String) (l : SupportLedger) → IsIndexed l → Found phone l (get_user_by_phone phone l)
unfolding get_user_by_phone get_user_by_id
IsIndexed-Found phone l h = ground (arith, h phone)

empty-IsIndexed : IsIndexed new_support_ledger
unfolding new_support_ledger
empty-IsIndexed phone = ground (arith, lookup-empty {0} {V = ℤ} phone)

-- After any users were created and updated in an empty ledger, in any order and with any changes of
-- their phone numbers, the lookup by a phone number finds only a user who has that number now and
-- who is stored under its own id.
pub upserts_find_current :
    (users : List User) (phone : String)
    → Found phone
        (upserts users new_support_ledger)
        (get_user_by_phone phone (upserts users new_support_ledger))
upserts_find_current users phone =
    IsIndexed-Found phone (upserts users new_support_ledger)
      (upserts-IsIndexed users new_support_ledger empty-IsIndexed)

-- If two users have the same phone number, and the one stored first changes it, then the other one,
-- whose number has not changed, is stored and yet not found by it.
pub shared_phone_is_lost :
    (a b a' : User) (l : SupportLedger)
    → a.id ≢ pos 0
    → b.id ≢ pos 0
    → a'.id ≡ a.id
    → b.id ≢ a.id
    → b.phone ≡ a.phone
    → a.phone ≢ ""
    → a'.phone ≢ a.phone
    → let after = upserts (a ∷ b ∷ a' ∷ []) l in
      (get_user_by_id b.id after ≡ some b) × (get_user_by_phone b.phone after ≡ none)
unfolding upserts upsert_user get_user_by_id get_user_by_phone
shared_phone_is_lost a b a' l a_id b_id same different shared filled moved =
    let index = (upserts (a ∷ b ∷ []) l).user_id_by_phone in
    (
      ground arith,
      ground (
        arith,
        eq_iff a.phone "",
        eq_iff a.phone a'.phone,
        eq_iff a'.phone b.phone,
        eq_iff a.phone b.phone,
        eq_refl a.phone,
        eq_refl b.phone,
        lookup-delete a.phone b.phone index,
        lookup-insert a'.phone b.phone a'.id (delete a.phone index),
      ),
    )
