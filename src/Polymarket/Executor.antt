-- ===== src/Polymarket/Executor.antt =====
-- src/adapter/outbound/polymarket/executor.rs, and `ExecutionError` of src/error.rs. The client of the
-- exchange is the SDK's. The orders of an opportunity are sent concurrently: a call is known by the
-- number of its order, so that what the client answers may depend on how the orders interleave.
pub mod Legs
use Prim.Native.String.{◌++◌}
use edgelord.Common.{
  ℕ, zero, suc, List, [], ◌∷◌, map, Option, none, some, String, Result, ok, err, Done, length, ltb,
  is_empty, if◌then◌else◌,
}
use edgelord.Domain.Id.{TokenId}
use edgelord.Domain.Opportunity.{Opportunity, OpportunityLeg}
use edgelord.Domain.Trade.{Fill, Failure, TradeResult}

pub data ExecutionError : Type 0 where
  auth_failed : (reason : String) → ExecutionError
  invalid_token_id : (token_id reason : String) → ExecutionError
  order_rejected : (reason : String) → ExecutionError
  order_build_failed : (reason : String) → ExecutionError
  signing_failed : (reason : String) → ExecutionError
  submission_failed : (reason : String) → ExecutionError

abbrev to_string : ExecutionError → String
to_string (auth_failed reason) = "authentication failed: " ++ reason
to_string (invalid_token_id token_id reason) = "invalid token ID '" ++ token_id ++ "': " ++ reason
to_string (order_rejected reason) = "order rejected: " ++ reason
to_string (order_build_failed reason) = "failed to build order: " ++ reason
to_string (signing_failed reason) = "failed to sign order: " ++ reason
to_string (submission_failed reason) = "failed to submit order: " ++ reason

pub data OrderSide : Type 0 where
  buy : OrderSide
  sell : OrderSide

pub record OrderRequest (D : Type 0) : Type 0 where
  pub token_id : String
  pub side : OrderSide
  pub size : D
  pub price : D

pub data ExecutionResult (D : Type 0) : Type 0 where
  success : (order_id : String) (filled_amount average_price : D) → ExecutionResult D
  partial_fill :
      (order_id : String) (filled_amount remaining_amount average_price : D) → ExecutionResult D
  failed : (reason : String) → ExecutionResult D

-- What the SDK answers: `U` is a `U256`, `L` an order, `S` a signed one; an error is its text.
pub record Client (D U L S : Type 0) : Type 0 where
  pub from_str : String → Result U String
  pub build : ℕ → U → OrderSide → (price size : D) → Result L String
  pub sign : ℕ → L → Result S String
  pub post_order : ℕ → S → Result String String
  -- The reason that the answer gives under `not_canceled` for this order.
  pub cancel_order : String → Result (Option String) String

-- `map_err(wrap)?`.
abbrev or_fail :
    {A B : Type 0}
    → (String → ExecutionError)
    → Result A String
    → (A → Result B ExecutionError)
    → Result B ExecutionError
or_fail wrap (ok a) f = f a
or_fail wrap (err reason) f = err (wrap reason)

-- `errors.join("; ")`.
abbrev join : List String → String
join [] = ""
join (e ∷ []) = e
join (e ∷ f ∷ es) = e ++ "; " ++ join (f ∷ es)

module _ {D U L S : Type 0} (x : Client D U L S) where
  unfoldable pub submit_order :
      ℕ → String → OrderSide → (size price : D) → Result String ExecutionError
  submit_order n token_id side size price =
      or_fail (invalid_token_id token_id) (x.from_str token_id) (λ token.
        or_fail order_build_failed (x.build n token side price size) (λ order.
          or_fail signing_failed (x.sign n order) (λ signed.
            or_fail submission_failed (x.post_order n signed) (λ order_id. ok order_id))))

  -- The futures of the legs and their answers, in the order of the legs.
  unfoldable pub submit_legs :
      ℕ → D → List (OpportunityLeg D) → List (TokenId × Result String ExecutionError)
  submit_legs n volume [] = []
  submit_legs n volume (leg ∷ legs) =
      (leg.token_id, submit_order n leg.token_id buy volume leg.ask_price)
      ∷ submit_legs (suc n) volume legs

  unfoldable pub execute : OrderRequest D → ExecutionResult D
  execute order = elim (submit_order 0 order.token_id order.side order.size order.price) [
    | ok order_id ↦ success order_id order.size order.price
    | err e ↦ failed (to_string e)
  ]

  unfoldable pub cancel : String → Done ExecutionError
  cancel order_id =
      or_fail (λ reason. submission_failed ("Cancel failed: " ++ reason)) (x.cancel_order order_id)
        (λ refusal. elim refusal [
          | none ↦ ok tt
          | some reason ↦
              err (order_rejected ("Order " ++ order_id ++ " not cancelled: " ++ reason))
        ])

-- The loop that tells the filled legs from the failed ones.
unfoldable pub separate : List (TokenId × Result String ExecutionError) → List Fill × List Failure
separate [] = ([], [])
separate ((token_id, ok order_id) ∷ rest) =
    let (fills, failures) = separate rest in
    (record { token_id = token_id; order_id = order_id } ∷ fills, failures)
separate ((token_id, err e) ∷ rest) =
    let (fills, failures) = separate rest in
    (fills, record { token_id = token_id; error = to_string e } ∷ failures)

unfoldable pub conclude_legs : List Fill × List Failure → TradeResult
conclude_legs (fills, failures) =
    if is_empty failures
    then TradeResult.success fills
    else if is_empty fills
    then TradeResult.failed (join (map (λ f. f.error) failures))
    else TradeResult.partial fills failures

unfoldable pub execute_arbitrage : {D U L S : Type 0} → Client D U L S → Opportunity D → TradeResult
execute_arbitrage x o =
    if ltb (length o.legs) 2
    then TradeResult.failed "Opportunity must have at least 2 legs"
    else conclude_legs (separate (submit_legs x 0 o.volume o.legs))
