-- ===== src/Polymarket/Executor/Legs.antt =====
-- What `execute_arbitrage` (src/adapter/outbound/polymarket/executor.rs) reports of the legs.
use edgelord.Common.{
  ℕ, suc, ◌≡◌, refl, ◌↔◌, sym, ap, subst, Bool, true, false, List, [], ◌∷◌, map, String, Result, ok,
  err, length, is_empty, ◌≤◌, arith, All,
}
use edgelord.Domain.Id.{TokenId}
use edgelord.Domain.Opportunity.{Opportunity, OpportunityLeg}
use edgelord.Domain.Trade.{Fill, Failure, TradeResult, is_success, is_failed, fills_of, failures_of}
use edgelord.Polymarket.Executor.{
  ExecutionError, to_string, Client, submit_legs, separate, conclude_legs, execute_arbitrage,
}

-- The third list has the elements of the first and of the second, each list's in its order.
pub data Merge {A : Type 0} : List A → List A → List A → Type 0 where
  done : Merge [] [] []
  from_left : (a : A) {l r m : List A} → Merge l r m → Merge (a ∷ l) r (a ∷ m)
  from_right : (a : A) {l r m : List A} → Merge l r m → Merge l (a ∷ r) (a ∷ m)

-- A leg's token, and the order's identifier or the text of the error.
abbrev pub Told : Type 0
Told = TokenId × Result String String

abbrev pub told : TokenId × Result String ExecutionError → Told
told (token_id, ok order_id) = (token_id, ok order_id)
told (token_id, err e) = (token_id, err (to_string e))

abbrev pub told_fill : Fill → Told
told_fill f = (f.token_id, ok f.order_id)

abbrev pub told_failure : Failure → Told
told_failure f = (f.token_id, err f.error)

abbrev pub is_filled : TokenId × Result String ExecutionError → Bool
is_filled (token_id, ok order_id) = true
is_filled (token_id, err e) = false

abbrev pub AllFilled : List (TokenId × Result String ExecutionError) → Type 0
AllFilled = All (λ a. is_filled a ≡ true)

abbrev pub NoneFilled : List (TokenId × Result String ExecutionError) → Type 0
NoneFilled = All (λ a. is_filled a ≡ false)

-- The fills and the failures are the answers, each once and in their order.
abbrev pub AreSplit :
    List (TokenId × Result String ExecutionError) → List Fill → List Failure → Type 0
AreSplit answers fills failures =
    Merge (map told_fill fills) (map told_failure failures) (map told answers)

separate-AreSplit :
    (answers : List (TokenId × Result String ExecutionError))
    → AreSplit answers (separate answers).0 (separate answers).1
unfolding separate
separate-AreSplit [] = done
separate-AreSplit ((t, ok order_id) ∷ rest) = from_left _ (separate-AreSplit rest)
separate-AreSplit ((t, err e) ∷ rest) = from_right _ (separate-AreSplit rest)

failures_iff :
    (answers : List (TokenId × Result String ExecutionError))
    → (is_empty (separate answers).1 ≡ true) ↔ AllFilled answers
unfolding separate
failures_iff [] = ground arith
failures_iff ((t, ok order_id) ∷ rest) = ground (arith, failures_iff rest)
failures_iff ((t, err e) ∷ rest) = ground arith

fills_iff :
    (answers : List (TokenId × Result String ExecutionError))
    → (is_empty (separate answers).0 ≡ true) ↔ NoneFilled answers
unfolding separate
fills_iff [] = ground arith
fills_iff ((t, ok order_id) ∷ rest) = ground arith
fills_iff ((t, err e) ∷ rest) = ground (arith, fills_iff rest)

-- Of one leg or more, some is filled or some is refused.
some_answer :
    (answers : List (TokenId × Result String ExecutionError))
    → is_empty answers ≡ false
    → is_empty (separate answers).1 ≡ true
    → is_empty (separate answers).0 ≡ false
unfolding separate
some_answer [] h e = ground arith
some_answer ((t, ok order_id) ∷ rest) h e = refl
some_answer ((t, err x) ∷ rest) h e = ground arith

conclude_success :
    (p : List Fill × List Failure) → (is_success (conclude_legs p) ≡ true) ↔ (is_empty p.1 ≡ true)
unfolding conclude_legs
conclude_success p = ground arith

conclude_failed :
    (p : List Fill × List Failure)
    → (is_empty p.1 ≡ true → is_empty p.0 ≡ false)
    → (is_failed (conclude_legs p) ≡ true) ↔ (is_empty p.0 ≡ true)
unfolding conclude_legs
conclude_failed p h = ground arith

conclude_lists :
    (p : List Fill × List Failure)
    → is_failed (conclude_legs p) ≡ false
    → (fills_of (conclude_legs p) ≡ p.0) × (failures_of (conclude_legs p) ≡ p.1)
unfolding conclude_legs
conclude_lists (fills, []) h = (refl, refl)
conclude_lists ([], f ∷ failures) h = ground arith
conclude_lists (a ∷ fills, f ∷ failures) h = (refl, refl)

-- The answers are to the orders of the legs; the report says success when all were filled and failure
-- when none was, and has otherwise every answer once, in the order of the legs.
pub record Reported {D : Type 0} (legs : List (OpportunityLeg D))
    (answers : List (TokenId × Result String ExecutionError)) (r : TradeResult) : Type 0 where
  pub answered : map (λ a. a.0) answers ≡ map (λ leg. leg.token_id) legs
  pub success_iff : (is_success r ≡ true) ↔ AllFilled answers
  pub failed_iff : (is_failed r ≡ true) ↔ NoneFilled answers
  pub split : is_failed r ≡ false → AreSplit answers (fills_of r) (failures_of r)

conclude_legs-Reported :
    {D : Type 0} (legs : List (OpportunityLeg D))
    (answers : List (TokenId × Result String ExecutionError))
    → map (λ a. a.0) answers ≡ map (λ leg. leg.token_id) legs
    → is_empty answers ≡ false
    → Reported legs answers (conclude_legs (separate answers))
conclude_legs-Reported legs answers tokens h =
    let p = separate answers in
    record {
      answered = tokens;
      success_iff = ground (arith, conclude_success p, failures_iff answers);
      failed_iff = ground (arith, conclude_failed p (some_answer answers h), fills_iff answers);
      split = λ f.
          let (fills, failures) = conclude_lists p f in
          subst (λ l. AreSplit answers l (failures_of (conclude_legs p))) (sym fills)
            (subst (λ l. AreSplit answers p.0 l) (sym failures) (separate-AreSplit answers));
    }

module _ {D U L S : Type 0} (x : Client D U L S) where
  tokens-submit_legs :
      (n : ℕ) (volume : D) (legs : List (OpportunityLeg D))
      → map (λ a. a.0) (submit_legs x n volume legs) ≡ map (λ leg. leg.token_id) legs
  unfolding submit_legs
  tokens-submit_legs n volume [] = refl
  tokens-submit_legs n volume (leg ∷ legs) =
      ap (λ ts. leg.token_id ∷ ts) (tokens-submit_legs (suc n) volume legs)

  submit_legs_answers :
      (volume : D) (legs : List (OpportunityLeg D))
      → 2 ≤ length legs
      → is_empty (submit_legs x 0 volume legs) ≡ false
  unfolding submit_legs
  submit_legs_answers volume [] h = ground arith
  submit_legs_answers volume (leg ∷ legs) h = refl

  execute_arbitrage_concluded :
      (o : Opportunity D)
      → 2 ≤ length o.legs
      → execute_arbitrage x o ≡ conclude_legs (separate (submit_legs x 0 o.volume o.legs))
  unfolding execute_arbitrage
  execute_arbitrage_concluded o h = ground arith

  -- An opportunity of two legs or more is reported as a success exactly when every order was posted, as
  -- a failure exactly when none was, and otherwise each leg stands once, in the order of the legs, among
  -- the fills with its order's identifier or among the failures with its error's text.
  pub execute_arbitrage-Reported :
      (o : Opportunity D)
      → 2 ≤ length o.legs
      → Reported o.legs (submit_legs x 0 o.volume o.legs) (execute_arbitrage x o)
  execute_arbitrage-Reported o h =
      let answers = submit_legs x 0 o.volume o.legs in
      subst (Reported o.legs answers) (sym (execute_arbitrage_concluded o h)) (
        conclude_legs-Reported o.legs answers (tokens-submit_legs 0 o.volume o.legs)
          (submit_legs_answers o.volume o.legs h))
