-- ===== src/Activity/Admin.antt =====
-- services/activity-service/internal/application/admin/activity.go: the administration of the
-- activities. The gateway is functions on a world; texts of wrapped errors are left out, the errors
-- themselves are kept.
pub mod Guards
use seckill_go.Prelude.{
  if◌then◌else◌, ℤ, pos, lt_ℤ, le_ℤ, eq_ℤ, Result, ok, err, trim_space, String, append, Bool, not,
  ◌||◌, Option, none, some, [], str_eq,
}
use seckill_go.Activity.Status.{Sku, Activity}
use seckill_go.Activity.Aggregate.{start, can_modify, can_remove_products, new_pending}

-- An error of the gateway, or `E` from it, behind a prefix.
pub data AdminError (E : Type 0) : Type 0 where
  invalid_request : AdminError E
  ended_activity : AdminError E  -- `repository.ErrInvalidState`
  wrapped : (prefix : String) → E → AdminError E

pub record AdminServices (E W : Type 0) : Type 0 where
  pub has_cache : Bool
  pub get_activity : String → W → Result E Activity × W
  pub create_activity : Activity → W → Result E Activity × W
  pub update_activity : Activity → W → Option E × W
  pub update_activity_status : String → ℤ → W → Option E × W
  pub add_activity_sku : String → Sku → W → Option E × W
  pub remove_activity_sku : String → String → W → Option E × W
  pub evict : String → W → W
  pub now : W → ℤ × W

pub record CreateActivityCommand : Type 0 where
  pub activity_name : String
  pub start_time : ℤ
  pub end_time : ℤ
  pub purchase_limit : ℤ
  pub remark : String

pub record UpdateActivityCommand : Type 0 where
  pub activity_no : String
  pub activity_name : String
  pub start_time : ℤ
  pub end_time : ℤ
  pub purchase_limit : ℤ
  pub remark : String

pub record AddProductCommand : Type 0 where
  pub activity_no : String
  pub sku_no : String
  pub product_name : String
  pub product_image : String
  pub original_price : ℤ
  pub seckill_price : ℤ
  pub activity_stock : ℤ
  pub limit_quantity : ℤ
  pub discount_type : ℤ
  pub discount_price : ℤ
  pub discount_percent : ℤ

abbrev pub not_after : ℤ → ℤ → Bool
not_after t u = not (lt_ℤ u t)

-- What `UpdateActivity` passes on.
abbrev pub changes : String → UpdateActivityCommand → Activity
changes activity_no c = record {
  root = none;
  activity_no = activity_no;
  name = trim_space c.activity_name;
  start_time = c.start_time;
  end_time = c.end_time;
  status = pos 0;
  purchase_limit = c.purchase_limit;
  remark = trim_space c.remark;
  skus = [];
  created_at = pos 0;
  updated_at = pos 0;
}

abbrev pub product_of : String → String → ℤ → AddProductCommand → Sku
product_of activity_no sku_no activity_limit c = record {
  activity_no = activity_no;
  sku_no = sku_no;
  product_name =
      if str_eq (trim_space c.product_name) "" then sku_no else trim_space c.product_name;
  product_image = trim_space c.product_image;
  original_price = c.original_price;
  seckill_price = if le_ℤ c.seckill_price (pos 0) then c.discount_price else c.seckill_price;
  total_stock = c.activity_stock;
  limit_quantity = if le_ℤ c.limit_quantity (pos 0) then activity_limit else c.limit_quantity;
  discount_type = c.discount_type;
  discount_price = c.discount_price;
  discount_pct = c.discount_percent;
}

module _ {E W : Type 0} (g : AdminServices E W) where
  unfoldable pub evict_activity : String → W → W
  evict_activity n w = if g.has_cache then g.evict n w else w

  -- `if err != nil { return fmt.Errorf(...) }`, then the eviction.
  abbrev pub finish : String → String → Option E × W → Option (AdminError E) × W
  finish prefix n (error, w) = elim error [
    | some e ↦ (some (wrapped prefix e), w)
    | none ↦ (none, evict_activity n w)
  ]

  -- `id` is what the snowflake generator returns, as text; `number`, `title` and `limit` go
  -- through the value objects of internal/domain/vo.
  unfoldable pub create_activity :
      String → CreateActivityCommand → W → Result (AdminError E) String × W
  unfolding new_pending evict_activity
  create_activity id c w =
      let name = trim_space c.activity_name in
      let number = trim_space (append "A" id) in
      let title = trim_space name in
      let (now, w1) = g.now w in
      let (created_at, w2) = g.now w1 in
      let limit = if lt_ℤ (pos 0) c.purchase_limit then c.purchase_limit else pos 1 in
      let pending = new_pending (record {
        activity_no = number;
        name = title;
        start_time = c.start_time;
        end_time = c.end_time;
        purchase_limit = limit;
        remark = trim_space c.remark;
        created_at = created_at;
      }) in
      if str_eq name ""
        || eq_ℤ c.start_time (pos 0)
        || eq_ℤ c.end_time (pos 0)
        || not_after c.end_time c.start_time
      then (err invalid_request, w)
      else if lt_ℤ c.start_time now
      then (err invalid_request, w1)
      else if str_eq number "" || str_eq title ""
      then (err invalid_request, w1)
      else elim pending [
        | none ↦ (err invalid_request, w2)
        | some a ↦
            let (created, w3) = g.create_activity a w2 in
            elim created [
              | err e ↦ (err (wrapped "create activity: " e), w3)
              | ok stored ↦ (ok stored.activity_no, evict_activity stored.activity_no w3)
            ]
      ]

  unfoldable pub update_activity : UpdateActivityCommand → W → Option (AdminError E) × W
  unfolding can_modify
  update_activity c w =
      let n = trim_space c.activity_no in
      let (read, w1) = g.get_activity n w in
      if str_eq n "" then (some invalid_request, w) else elim read [
        | err e ↦ (some (wrapped "get activity: " e), w1)
        | ok existing ↦
            let start = if eq_ℤ c.start_time (pos 0) then existing.start_time else c.start_time in
            let end_ = if eq_ℤ c.end_time (pos 0) then existing.end_time else c.end_time in
            if not (can_modify existing)
            then (some ended_activity, w1)
            else if eq_ℤ start (pos 0) || eq_ℤ end_ (pos 0) || not_after end_ start
            then (some invalid_request, w1)
            else finish "update activity: " n (g.update_activity (changes n c) w1)
      ]

  unfoldable pub end_activity : String → W → Option (AdminError E) × W
  unfolding can_modify
  end_activity activity_no w =
      let n = trim_space activity_no in
      let (read, w1) = g.get_activity n w in
      if str_eq n "" then (some invalid_request, w) else elim read [
        | err e ↦ (some (wrapped "get activity: " e), w1)
        | ok existing ↦
            if not (can_modify existing)
            then (some ended_activity, w1)
            else finish "update activity status: " n (g.update_activity_status n (pos 3) w1)
      ]

  unfoldable pub add_product : AddProductCommand → W → Option (AdminError E) × W
  unfolding can_modify
  add_product c w =
      let n = trim_space c.activity_no in
      let sku_no = trim_space c.sku_no in
      let (read, w1) = g.get_activity n w in
      if str_eq n "" || str_eq sku_no "" || le_ℤ c.activity_stock (pos 0)
      then (some invalid_request, w)
      else elim read [
        | err e ↦ (some (wrapped "get activity: " e), w1)
        | ok existing ↦
            if not (can_modify existing)
            then (some ended_activity, w1)
            else finish "add activity sku: " n
                (g.add_activity_sku n (product_of n sku_no existing.purchase_limit c) w1)
      ]

  unfoldable pub remove_product : String → String → W → Option (AdminError E) × W
  unfolding can_remove_products
  remove_product activity_no sku_no w =
      let n = trim_space activity_no in
      let k = trim_space sku_no in
      let (read, w1) = g.get_activity n w in
      if str_eq n "" || str_eq k "" then (some invalid_request, w) else elim read [
        | err e ↦ (some (wrapped "get activity: " e), w1)
        | ok existing ↦
            if not (can_remove_products existing)
            then (some ended_activity, w1)
            else finish "remove activity sku: " n (g.remove_activity_sku n k w1)
      ]
