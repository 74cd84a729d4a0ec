-- ===== src/Activity/Admin/Guards.antt =====
-- What the administration asks of the activity gateway, read from a journal of its calls.
use seckill_go.Prelude.{
  ℤ, pos, ◌≤ℤ◌, ◌<ℤ◌, lt_ℤ, eq_ℤ, Result, ok, err, trim_space, String, ◌≡◌, true, false, List, [],
  ◌∷◌, arith, str_eq,
}
use seckill_go.Activity.Status.{Sku, Activity}
use seckill_go.Activity.Aggregate.{can_modify, new_pending}
use seckill_go.Activity.Admin.{
  AdminServices, CreateActivityCommand, UpdateActivityCommand, AddProductCommand, evict_activity,
  create_activity, update_activity, end_activity, add_product,
}

pub data Ask : Type 0 where
  created : Activity → Ask
  changed : Activity → Ask
  moved : (activity_no : String) (status : ℤ) → Ask
  product_added : (activity_no : String) (k : Sku) → Ask
  product_removed : (activity_no sku_no : String) → Ask

-- The gateway with a journal of what it is asked to change before its world, the latest first.
abbrev pub recorded : {E W : Type 0} → AdminServices E W → AdminServices E (List Ask × W)
recorded g = record {
  has_cache = g.has_cache;
  get_activity = λ n (js, w). let (r, w') = g.get_activity n w in (r, (js, w'));
  create_activity = λ a (js, w). let (r, w') = g.create_activity a w in (r, (created a ∷ js, w'));
  update_activity = λ a (js, w). let (r, w') = g.update_activity a w in (r, (changed a ∷ js, w'));
  update_activity_status =
      λ n s (js, w). let (r, w') = g.update_activity_status n s w in (r, (moved n s ∷ js, w'));
  add_activity_sku =
      λ n k (js, w). let (r, w') = g.add_activity_sku n k w in (r, (product_added n k ∷ js, w'));
  remove_activity_sku = λ n k (js, w).
      let (r, w') = g.remove_activity_sku n k w in (r, (product_removed n k ∷ js, w'));
  evict = λ n (js, w). (js, g.evict n w);
  now = λ (js, w). let (t, w') = g.now w in (t, (js, w'));
}

-- Behind an answer: no change, or one change of an activity that was read and had not ended.
abbrev pub HadNotEnded : {E : Type 0} → Result E Activity → Type 0
HadNotEnded (ok a) = eq_ℤ a.status (pos 3) ≡ false
HadNotEnded (err e) = ⊥

abbrev pub IsChange : {E : Type 0} → String → Result E Activity → List Ask → Type 0
IsChange n read [] = Unit
IsChange n read (changed a ∷ []) = (a.activity_no ≡ n) × HadNotEnded read
IsChange n read (moved m s ∷ []) = (m ≡ n) × (s ≡ pos 3) × HadNotEnded read
IsChange n read (product_added m k ∷ []) =
    (m ≡ n)
    × (k.activity_no ≡ n)
    × (lt_ℤ (pos 0) k.total_stock ≡ true)
    × (str_eq k.sku_no "" ≡ false)
    × HadNotEnded read
IsChange n read _ = ⊥

-- A journal of a creation: nothing, or one activity, pending, without products, with a name and a
-- positive limit, which starts no earlier than now and ends after it starts.
abbrev pub IsCreation : ℤ → List Ask → Type 0
IsCreation now [] = Unit
IsCreation now (created a ∷ []) =
    (a.status ≡ pos 0)
    × (a.skus ≡ [])
    × (str_eq a.name "" ≡ false)
    × (pos 0 <ℤ a.purchase_limit)
    × (now ≤ℤ a.start_time)
    × (a.start_time <ℤ a.end_time)
IsCreation now _ = ⊥

create_guards :
    {E W : Type 0} (g : AdminServices E W) (id : String) (c : CreateActivityCommand) (w : W)
    → IsCreation (g.now w).0 (create_activity (recorded g) id c ([], w)).1.0
unfolding create_activity new_pending evict_activity
create_guards g id c w = ground arith

-- Updating, ending and extending an activity: no change is asked for, or one, of the activity named,
-- its spaces trimmed, which was read and had not ended; a product that is added has a number and
-- some stock. A creation asks for nothing, or for one pending activity without products, which has a
-- name, starts no earlier than the time read first, ends after it starts and has a positive limit.
pub admin_guards :
    {E W : Type 0} (g : AdminServices E W) (u : UpdateActivityCommand) (n : String)
    (p : AddProductCommand) (id : String) (c : CreateActivityCommand) (w : W)
    → IsChange
        (trim_space u.activity_no)
        (g.get_activity (trim_space u.activity_no) w).0
        (update_activity (recorded g) u ([], w)).1.0
      × IsChange
          (trim_space n)
          (g.get_activity (trim_space n) w).0
          (end_activity (recorded g) n ([], w)).1.0
      × IsChange
          (trim_space p.activity_no)
          (g.get_activity (trim_space p.activity_no) w).0
          (add_product (recorded g) p ([], w)).1.0
      × IsCreation (g.now w).0 (create_activity (recorded g) id c ([], w)).1.0
unfolding update_activity end_activity add_product evict_activity can_modify
admin_guards g u n p id c w = (ground arith, ground arith, ground arith, create_guards g id c w)
