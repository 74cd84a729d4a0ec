-- ===== src/Gateway/Entry/Verdicts/Answered.antt =====
-- The answer of the entry against the verdicts that it learned.
use mathlib.Core.Path.{subst}
use seckill_go.Prelude.{
  if◌then◌else◌, Bool-cases, pos, le_ℤ, Result, ok, err, Result-cases, append, ◌≡◌, refl, inl, inr,
  Bool, true, false, not, Option, none, some, List, [], ◌∷◌, arith, str_eq,
}
use seckill_go.Errors.{RpcError}
use seckill_go.Gateway.Entry.{
  ActivityDetail, PartInResult, Setting, Services, user_rate_or_default, user_interval_or_default,
  user_expire_or_default, Request, pass_machine, acquire_user_rate_limit, mark_suspicious,
}
use seckill_go.Gateway.Entry.Fast.{EntryError, admit, part_in_fast_path}
use seckill_go.Gateway.Entry.Slow.{
  after_risk, check_risk, with_activity, part_in_slow_path, part_in,
}
use seckill_go.Gateway.Entry.Verdicts.{
  Verdict, opened, stock, opened_if, recorded, AllPassed, NoneTaken, Justifies, Stage,
  machine-Stage, rate-Stage, separate-Stage, submit-Justifies, risk-Stage, publish-Justifies,
}

module _ {W : Type 0} (g : Services W) (env : Setting) (q : Request) (vs : List Verdict)
    (passed : AllPassed vs) (untaken : NoneTaken vs) (w : W) where
  admit-Stage : Stage (admit (recorded g) env q (vs, w)).0 (admit (recorded g) env q (vs, w)).1.0
  unfolding admit
  admit-Stage =
      let c = env.rate_limit in
      ground (
        arith,
        separate-Stage g env q vs passed untaken w,
        separate-Stage g env q vs passed untaken
            (g.acquire_and_set_processing q.user_id (user_rate_or_default c)
              (user_interval_or_default c) (user_expire_or_default c)
              (append "seckill:order:result:" q.trace_id) w).1,
      )

  after_risk-Justifies :
      (a : ActivityDetail)
      → Justifies q
          (after_risk (recorded g) env q a (vs, w)).1.0
          (after_risk (recorded g) env q a (vs, w)).0
  unfolding after_risk
  after_risk-Justifies a = elim (Result-cases (g.peek q.activity_no q.sku_no w).0) [
    | inr (e, failed) ↦ ground (arith, failed)
    | inl (n, peeked) ↦ elim (Bool-cases (le_ℤ n (pos 0))) [
      | inl empty ↦ ground (arith, peeked, empty)
      | inr some_left ↦
          let after = (g.peek q.activity_no q.sku_no w).1 in
          ground (
            arith,
            peeked,
            some_left,
            publish-Justifies g env q (stock n ∷ vs) (ground (arith, some_left, passed)) untaken
                after a,
          )
    ]
  ]

module _ {W : Type 0} (g : Services W) (env : Setting) (q : Request) (vs : List Verdict)
    (passed : AllPassed vs) (untaken : NoneTaken vs) (w : W) where
  open-Justifies :
      (a : ActivityDetail)
      → a.activity_open ≡ true
      → Justifies q
          (with_activity (recorded g) env q (ok (some a)) (vs, w)).1.0
          (with_activity (recorded g) env q (ok (some a)) (vs, w)).0
  unfolding with_activity
  open-Justifies a open_now = elim (Bool-cases (check_risk (recorded g) env q (vs, w)).0) [
    | inl is_risk ↦ ground (arith, open_now, is_risk, risk-Stage g env q vs passed untaken w)
    | inr harmless ↦
        let stage =
          subst (λ b. Stage (not b) (check_risk (recorded g) env q (vs, w)).1.0) harmless
            (risk-Stage g env q vs passed untaken w) in
        ground (
          arith,
          open_now,
          harmless,
          after_risk-Justifies g env q (check_risk (recorded g) env q (vs, w)).1.0 stage.0 stage.1
              (check_risk (recorded g) env q (vs, w)).1.1 a,
        )
  ]

module _ {W : Type 0} (g : Services W) (env : Setting) (q : Request) where
  closed-Justifies :
      (vs : List Verdict) (w : W) (a : ActivityDetail)
      → NoneTaken vs
      → a.activity_open ≡ false
      → Justifies q
          (with_activity (recorded g) env q (ok (some a)) (vs, w)).1.0
          (with_activity (recorded g) env q (ok (some a)) (vs, w)).0
  unfolding with_activity mark_suspicious
  closed-Justifies vs w a untaken shut = ground (arith, shut)

  answered-Justifies :
      (r : Result RpcError (Option ActivityDetail)) (vs : List Verdict) (w : W)
      → AllPassed vs
      → NoneTaken vs
      → Justifies q
          (with_activity (recorded g) env q r (opened_if r vs, w)).1.0
          (with_activity (recorded g) env q r (opened_if r vs, w)).0
  unfolding with_activity
  answered-Justifies (err e) vs w passed untaken = ground arith
  answered-Justifies (ok none) vs w passed untaken = untaken
  answered-Justifies (ok (some a)) vs w passed untaken = elim (Bool-cases a.activity_open) [
    | inl open_now ↦
        open-Justifies g env q (opened a.activity_open ∷ vs) (open_now, passed) untaken w a open_now
    | inr shut ↦ closed-Justifies (opened a.activity_open ∷ vs) w a untaken shut
  ]

abbrev Told : {W : Type 0} → Request → Result EntryError PartInResult × (List Verdict × W) → Type 0
Told q (answer, (vs, w)) = Justifies q vs answer

Told-if :
    {W : Type 0} (q : Request) (b : Bool)
    (x y : Result EntryError PartInResult × (List Verdict × W))
    → (b ≡ true → Told q x)
    → (b ≡ false → Told q y)
    → Told q (if b then x else y)
Told-if q true x y yes_case no_case = yes_case refl
Told-if q false x y yes_case no_case = no_case refl

Told-unless :
    {W : Type 0} (q : Request) (b : Bool)
    (x y : Result EntryError PartInResult × (List Verdict × W))
    → (b ≡ false → Told q x)
    → (b ≡ true → Told q y)
    → Told q (if not b then x else y)
Told-unless q true x y failed_case passed_case = passed_case refl
Told-unless q false x y failed_case passed_case = failed_case refl

at_true : (b : Bool) (vs : List Verdict) → Stage b vs → b ≡ true → AllPassed vs × NoneTaken vs
at_true b vs stage h = subst (λ x. Stage x vs) h stage

at_false : (b : Bool) (vs : List Verdict) → Stage b vs → b ≡ false → NoneTaken vs
at_false b vs stage h = subst (λ x. Stage x vs) h stage

-- Whatever the collaborators answer and with a pool or without: a request is answered as queued only
-- if its event, with the caller's user, activity, product, quantity and trace id, was handed over and
-- taken last, once, after every check that was answered was passed: the machine check, the rate limit,
-- that the activity was found open, that the user is no risk and that there was stock. The answer
-- then has the trace id as its token. On any other answer, and on an error, no event was taken.
pub part_in-Justifies :
    {W : Type 0} (g : Services W) (env : Setting) (q : Request) (has_pool : Bool) (w : W)
    → let (answer, (vs, w')) = part_in (recorded g) env q has_pool ([], w) in Justifies q vs answer
unfolding part_in part_in_fast_path part_in_slow_path
part_in-Justifies g env q true w =
    let h = pass_machine (recorded g) env q ([], w) in
    let hs = machine-Stage g env q [] tt tt w in
    Told-if q (str_eq q.activity_no "") _ _ (λ blank. tt)
      (λ named.
        Told-if q (str_eq q.sku_no "") _ _ (λ blank. tt)
          (λ chosen.
            Told-unless q h.0 _ _ (λ robot. at_false h.0 h.1.0 hs robot)
              (λ human.
                let (p, u) = at_true h.0 h.1.0 hs human in
                let a = admit (recorded g) env q h.1 in
                let as_ = admit-Stage g env q h.1.0 p u h.1.1 in
                Told-unless q a.0 _ _ (λ limited. at_false a.0 a.1.0 as_ limited)
                  (λ admitted.
                    let (p', u') = at_true a.0 a.1.0 as_ admitted in
                    submit-Justifies g env q a.1.0 p' u' a.1.1))))
part_in-Justifies g env q false w =
    let h = pass_machine (recorded g) env q ([], w) in
    let hs = machine-Stage g env q [] tt tt w in
    Told-unless q h.0 _ _ (λ robot. at_false h.0 h.1.0 hs robot)
      (λ human.
        let (p, u) = at_true h.0 h.1.0 hs human in
        let a = acquire_user_rate_limit (recorded g) env q.user_id h.1 in
        let as_ = rate-Stage g env q h.1.0 p u h.1.1 in
        Told-unless q a.0 _ _ (λ limited. at_false a.0 a.1.0 as_ limited)
          (λ allowed.
            let (p', u') = at_true a.0 a.1.0 as_ allowed in
            let (read, w') = g.get_activity q.activity_no a.1.1 in
            answered-Justifies g env q read a.1.0 w' p' u'))
