-- ===== src/Examples/Orders.antt =====
-- An exchange that refuses the order of the second leg.
use edgelord.Common.{
  ◌≡◌, ◌≤◌, refl, [], ◌∷◌, some, String, ok, err, length, arith, nat_beq, if◌then◌else◌,
}
use edgelord.Common.Int.{ℤ}
use edgelord.Domain.Trade.{partial}
use edgelord.Examples.Data.{found}
use edgelord.Polymarket.Executor.{
  Client, submit_order, submit_legs, separate, conclude_legs, execute_arbitrage, cancel,
  order_rejected,
}
use edgelord.Polymarket.Executor.Legs.{Reported, execute_arbitrage-Reported}

abbrev client : Client ℤ String String String
client = record {
  from_str = λ t. ok t;
  build = λ n token side price size. ok token;
  sign = λ n order. ok order;
  post_order = λ n signed. if nat_beq n 1 then err "no balance" else ok "order-0";
  cancel_order = λ id. ok (some "already filled");
}

execute_arbitrage_partial :
    execute_arbitrage client found
    ≡ partial
        (record { token_id = "yes"; order_id = "order-0" } ∷ [])
        (record { token_id = "no"; error = "failed to submit order: no balance" } ∷ [])
unfolding execute_arbitrage submit_legs submit_order separate conclude_legs
execute_arbitrage_partial = refl

cancel_refused :
    cancel client "order-0" ≡ err (order_rejected "Order order-0 not cancelled: already filled")
unfolding cancel
cancel_refused = refl

found_legs : 2 ≤ length found.legs
found_legs = ground arith

execute_arbitrage-Reported_example :
    Reported found.legs
      (submit_legs client 0 found.volume found.legs)
      (execute_arbitrage client found)
execute_arbitrage-Reported_example = execute_arbitrage-Reported client found found_legs
