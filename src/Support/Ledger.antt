-- ===== src/Support/Ledger.antt =====
-- services/support-service/internal/infrastructure/ledger/support_ledger.go: the users, cards and
-- synced orders of the ledger in memory. `new_id` is what the snowflake generator returns, as text.
pub mod Cards
pub mod Orders
pub mod Users
use seckill_go.Prelude.{
  if◌then◌else◌, is_some, get_or, ℤ, pos, eq_ℤ, Assoc, lookup, insert, String, append, Bool, true,
  false, not, ◌&&◌, Option, none, some, [], str_eq, delete,
}
use seckill_go.Support.Card.{
  inactive, active, frozen, FreeCard, card_status_eq, valid_days_or_year, transit_card_active,
  transit_card_frozen,
}

pub record IssueCardRequest : Type 0 where
  pub user_id : ℤ
  pub order_no : String
  pub card_name : String
  pub face_value : ℤ
  pub valid_days : ℤ

pub record ActivateCardRequest : Type 0 where
  pub card_no : String
  pub user_id : ℤ
  pub order_no : String

pub record SyncOrderRequest : Type 0 where
  pub order_no : String
  pub user_id : ℤ
  pub order_source : String
  pub total_amount : ℤ
  pub discount_amount : ℤ
  pub pay_amount : ℤ
  pub paid_at : ℤ
  pub transaction_no : String

-- No operation sets the time of completion.
pub record SyncedOrder : Type 0 where
  pub request : SyncOrderRequest
  pub order_status : ℤ
  pub created_at : ℤ

-- entity/member.go
pub record User : Type 0 where
  pub id : ℤ
  pub username : String
  pub phone : String
  pub nickname : String
  pub avatar : String
  pub member_level : ℤ
  pub status : ℤ

-- The users are a map from int64 keys, read as a function.
pub record SupportLedger : Type 0 where
  pub cards_by_no : Assoc FreeCard
  pub card_no_by_order : Assoc String
  pub orders : Assoc SyncedOrder
  pub users_by_id : ℤ → Option User
  pub user_id_by_phone : Assoc ℤ

pub data LedgerError : Type 0 where
  card_not_found : LedgerError
  invalid_state : LedgerError

unfoldable pub new_support_ledger : SupportLedger
new_support_ledger = record {
  cards_by_no = [];
  card_no_by_order = [];
  orders = [];
  users_by_id = λ id. none;
  user_id_by_phone = [];
}

-- The card number found for an order; a missing key reads as the empty text.
abbrev pub issued_no : String → SupportLedger → String
issued_no order_no l = get_or (lookup order_no l.card_no_by_order) ""

abbrev new_card : IssueCardRequest → String → ℤ → FreeCard
new_card req number now = record {
  card_no = number;
  card_name = req.card_name;
  face_value = req.face_value;
  user_id = req.user_id;
  order_no = req.order_no;
  status = inactive;
  valid_days = valid_days_or_year req.valid_days;
  activated_at = none;
  expire_at = none;
  created_at = now;
}

unfoldable pub issue_card : IssueCardRequest → String → ℤ → SupportLedger → String × SupportLedger
issue_card req new_id now l =
    let number = append "FC" new_id in
    if not (str_eq (issued_no req.order_no l) "") then (issued_no req.order_no l, l) else (
      number,
      record l {
        cards_by_no = insert number (new_card req number now) l.cards_by_no;
        card_no_by_order = insert req.order_no number l.card_no_by_order;
      },
    )

-- `l.cardsByNo[u.CardNo] = u` where a transition was allowed.
abbrev store_card : FreeCard × Bool → SupportLedger → Option LedgerError × SupportLedger
store_card (c, true) l = (none, record l { cards_by_no = insert c.card_no c l.cards_by_no })
store_card (c, false) l = (some invalid_state, l)

unfoldable pub activate_card :
    (ℤ → ℤ → ℤ) → ActivateCardRequest → ℤ → SupportLedger → Option LedgerError × SupportLedger
activate_card add_days req now l = elim (lookup req.card_no l.cards_by_no) [
  | none ↦ (some card_not_found, l)
  | some c ↦
      if not (eq_ℤ req.user_id (pos 0)) && not (eq_ℤ c.user_id req.user_id)
      then (some invalid_state, l)
      else if not (str_eq req.order_no "") && not (str_eq c.order_no req.order_no)
      then (some invalid_state, l)
      else store_card (transit_card_active add_days c now) l
]

unfoldable pub freeze_card : String → SupportLedger → Option LedgerError × SupportLedger
freeze_card number l = elim (lookup number l.cards_by_no) [
  | none ↦ (some card_not_found, l)
  | some c ↦ store_card (transit_card_frozen c) l
]

unfoldable pub unfreeze_card :
    (ℤ → ℤ → ℤ) → String → ℤ → SupportLedger → Option LedgerError × SupportLedger
unfreeze_card add_days number now l = elim (lookup number l.cards_by_no) [
  | none ↦ (some card_not_found, l)
  | some c ↦
      if not (card_status_eq c.status frozen) && not (card_status_eq c.status active)
      then (some invalid_state, l)
      else store_card (transit_card_active add_days c now) l
]

unfoldable pub sync_order : SyncOrderRequest → ℤ → SupportLedger → SupportLedger
sync_order req now l = if is_some (lookup req.order_no l.orders) then l else record l {
  orders =
      insert req.order_no (record { request = req; order_status = pos 1; created_at = now })
        l.orders;
}

-- `GetSyncedOrder`, without the error value.
unfoldable pub get_synced_order : String → SupportLedger → Option SyncedOrder
get_synced_order number l = lookup number l.orders

unfoldable pub get_card : String → SupportLedger → Option FreeCard
get_card number l = lookup number l.cards_by_no

-- The index without the user's earlier phone number, where that has changed.
abbrev index_without_old : Option User → User → Assoc ℤ → Assoc ℤ
index_without_old none user index = index
index_without_old (some old) user index =
    if not (str_eq old.phone "") && not (str_eq old.phone user.phone)
    then delete old.phone index
    else index

unfoldable pub upsert_user : User → SupportLedger → Option LedgerError × SupportLedger
upsert_user user l =
    let index = index_without_old (l.users_by_id user.id) user l.user_id_by_phone in
    if eq_ℤ user.id (pos 0) then (some invalid_state, l) else (
      none,
      record l {
        users_by_id = λ id. if eq_ℤ id user.id then some user else l.users_by_id id;
        user_id_by_phone = if str_eq user.phone "" then index else insert user.phone user.id index;
      },
    )

-- Go's zero value of a user.
abbrev zero_user : User
zero_user = record {
  id = pos 0;
  username = "";
  phone = "";
  nickname = "";
  avatar = "";
  member_level = pos 0;
  status = pos 0;
}

-- `GetUserByPhone`, without the error value.
unfoldable pub get_user_by_phone : String → SupportLedger → Option User
get_user_by_phone phone l = elim (lookup phone l.user_id_by_phone) [
  | none ↦ none
  | some id ↦ some (get_or (l.users_by_id id) zero_user)
]

-- `GetUserByID`, without the error value.
unfoldable pub get_user_by_id : ℤ → SupportLedger → Option User
get_user_by_id id l = l.users_by_id id

unfoldable pub get_member_level : ℤ → SupportLedger → ℤ
get_member_level id l = elim (l.users_by_id id) [ none ↦ pos 0 | some user ↦ user.member_level ]
