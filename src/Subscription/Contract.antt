-- ===== src/Subscription/Contract.antt =====
-- Contraction takes off the tokens that came last.
use edgelord.Common.{
  ℕ, suc, ◌≡◌, refl, sym, ap, ◌∙◌, Bool, List, [], ◌∷◌, ◌++◌, some, arith, length, length-append,
  string_eq, filter, contains, any, Bool-cases, Option-cases, inl, inr, ==_iff, ◌==◌, true, ◌&&◌,
  ◌↔◌, lookup,
}
use mathlib.Core.Option.{some-injective}
use mathlib.Core.List.{append-nil, append_assoc}
use Prim.Native.Nat.{min}
use edgelord.Domain.Id.{TokenId, MarketId}
use edgelord.Subscription.Defs.{Manager, pop, pop_tokens, contract, stays, expand}
use edgelord.Subscription.Expand.{expand-Expanded}

-- The list backwards.
abbrev pub backwards : List TokenId → List TokenId
backwards [] = []
backwards (t ∷ ts) = backwards ts ++ (t ∷ [])

backwards-append : (ts us : List TokenId) → backwards (ts ++ us) ≡ backwards us ++ backwards ts
backwards-append [] us = sym (append-nil (backwards us))
backwards-append (t ∷ ts) us =
    ap (λ vs. vs ++ (t ∷ [])) (backwards-append ts us)
    ∙ append_assoc (backwards us) (backwards ts) (t ∷ [])

pop-append : (ts : List TokenId) (last : TokenId) → pop (ts ++ (last ∷ [])) ≡ some (ts, last)
unfolding pop
pop-append [] last = refl
pop-append (t ∷ ts) last = rw (pop-append ts last)

-- Popping as many as were appended.
pop_tokens-append :
    (ts us removed : List TokenId)
    → pop_tokens (length us) (ts ++ backwards us) removed ≡ (ts, removed ++ us)
unfolding pop_tokens
pop_tokens-append ts [] removed = rw (append-nil ts, append-nil removed)
pop_tokens-append ts (u ∷ us) removed =
    ap (λ vs. pop_tokens (suc (length us)) vs removed)
      (sym (append_assoc ts (backwards us) (u ∷ [])))
    ∙ step
    ∙ pop_tokens-append ts us (removed ++ (u ∷ []))
    ∙ ap (λ vs. (ts, vs)) (append_assoc removed (u ∷ []) us)
  where
    step :
        pop_tokens (suc (length us)) ((ts ++ backwards us) ++ (u ∷ [])) removed
        ≡ pop_tokens (length us) (ts ++ backwards us) (removed ++ (u ∷ []))
    step = rw (pop-append (ts ++ backwards us) u, pop_tokens)

backwards_involutive : (ts : List TokenId) → backwards (backwards ts) ≡ ts
backwards_involutive [] = refl
backwards_involutive (t ∷ ts) =
    backwards-append (backwards ts) (t ∷ []) ∙ ap (λ us. t ∷ us) (backwards_involutive ts)

length-backwards : (ts : List TokenId) → length (backwards ts) ≡ length ts
length-backwards [] = refl
length-backwards (t ∷ ts) =
    omega (arith, length-append (backwards ts) (t ∷ []), length-backwards ts)

-- The last `length us` tokens are popped, the last of them first.
pop_tokens_lem : (ts us : List TokenId) → pop_tokens (length us) (ts ++ us) [] ≡ (ts, backwards us)
pop_tokens_lem ts us = rw (← length-backwards us) (
    ap (λ vs. pop_tokens (length (backwards us)) (ts ++ vs) []) (sym (backwards_involutive us))
    ∙ pop_tokens-append ts (backwards us) [])

contains-filter :
    (p : MarketId → Bool) (id : MarketId) (ids : List MarketId)
    → contains id (filter p ids) ≡ (contains id ids && p id)
unfolding contains filter
contains-filter p id [] = refl
contains-filter p id (x ∷ xs) = elim (Bool-cases (x == id)) [
  | inl e ↦
      let same : x ≡ id = (==_iff x id).0 e in
      rw same (ground (arith, contains-filter p id xs, ==_iff id id))
  | inr e ↦ ground (arith, e, contains-filter p id xs, ==_iff x id, ==_iff id x)
]

any_iff :
    (p : TokenId → Bool) (ts : List TokenId)
    → (any p ts ≡ true) ↔ ((t : TokenId) × (contains t ts ≡ true) × (p t ≡ true))
unfolding any contains
any_iff p [] = (λ h. absurd (cc), λ (t, h, k). absurd (cc))
any_iff p (x ∷ xs) =
    let rest = any_iff p xs in
    (
      λ h. elim (Bool-cases (p x)) [
        | inl e ↦ (x, ground (arith, ==_iff x x), e)
        | inr e ↦ let (t, c, k) = rest.0 (ground (arith, h, e)) in (t, ground (arith, c), k)
      ],
      λ (t, c, k). elim (Bool-cases (x == t)) [
        | inl e ↦ let same : x ≡ t = (==_iff x t).0 e in rw same (ground (arith, k))
        | inr e ↦ let there = rest.1 (t, ground (arith, c, e), k) in ground (arith, there)
      ],
    )

module _ {S : Type 0} where
  contract_run :
      (m : Manager S) (ts us : List TokenId)
      → m.active_tokens ≡ ts ++ us
      → contract (length us) m ≡ (
        record m {
          active_tokens = ts;
          active_markets = filter (stays m.market_tokens ts) m.active_markets;
        },
        backwards us,
      )
  unfolding contract
  contract_run m ts us e =
      let all : min (length us) (length (ts ++ us)) ≡ length us =
        omega (arith, length-append ts us) in
      rw (e, all, pop_tokens_lem ts us)

  -- A market some token of which is among some tokens.
  abbrev pub HasTokenAmong : Manager S → List TokenId → MarketId → Type 0
  HasTokenAmong m ts id =
      (tokens : List TokenId) × (lookup id m.market_tokens ≡ some tokens)
      × ((t : TokenId) × (contains t tokens ≡ true) × (contains t ts ≡ true))

  stays_iff :
      (m : Manager S) (ts : List TokenId) (id : MarketId)
      → (stays m.market_tokens ts id ≡ true) ↔ HasTokenAmong m ts id
  stays_iff m ts id = elim (Option-cases (lookup id m.market_tokens)) [
    | inl e ↦ (
      λ h. absurd (ground (arith, h, e)),
      λ (tokens, found, among). absurd (ground (arith, e, found)),
    )
    | inr (tokens, e) ↦ (
      λ h. (tokens, e, (any_iff (λ t. contains t ts) tokens).0 (ground (arith, h, e))),
      λ (others, found, (t, c, k)).
          let same : others ≡ tokens = some-injective _ _ (sym found ∙ e) in
          rw (e, stays)
            ((any_iff (λ t. contains t ts) tokens).1 (t, ap (contains t) (sym same) ∙ c, k)),
    )
  ]

  -- Contracting by as many tokens as stand behind `ts` leaves just `ts` active, returns the others,
  -- the last one first, keeps active exactly the active markets one of whose registered tokens is in
  -- `ts`, and leaves the queue, the registered tokens and the maximum as they are.
  pub contract_lem :
      (m : Manager S) (ts us : List TokenId)
      → m.active_tokens ≡ ts ++ us
      → let (after, removed) = contract (length us) m in
        (after.active_tokens ≡ ts)
        × (removed ≡ backwards us)
        × ((id : MarketId)
            → (contains id after.active_markets ≡ true)
              ↔ ((contains id m.active_markets ≡ true) × HasTokenAmong m ts id))
        × (after.pending ≡ m.pending)
        × (after.market_tokens ≡ m.market_tokens)
        × (after.max_subscriptions ≡ m.max_subscriptions)
  contract_lem m ts us e =
      let run = contract_run m ts us e in
      (
        ap (λ r. r.0.active_tokens) run,
        ap (λ r. r.1) run,
        λ id.
            let same : contains id (contract (length us) m).0.active_markets
                ≡ (contains id m.active_markets && stays m.market_tokens ts id) =
              ap (λ r. contains id r.0.active_markets) run
              ∙ contains-filter (stays m.market_tokens ts) id m.active_markets in
            (
              λ h. (ground (arith, h, same), (stays_iff m ts id).0 (ground (arith, h, same))),
              λ (active, among).
                  let kept = (stays_iff m ts id).1 among in ground (arith, active, kept, same),
            ),
        ap (λ r. r.0.pending) run,
        ap (λ r. r.0.market_tokens) run,
        ap (λ r. r.0.max_subscriptions) run,
      )

module _ {S : Type 0} (above : S → S → Bool) where
  -- Contracting by as many tokens as an expansion has added gives back the active tokens from before
  -- it, and returns the added tokens, the last one first.
  pub contract-expand :
      (count : ℕ) (m : Manager S)
      → let (t, added) = expand above count m in
        ((contract (length added) t).0.active_tokens ≡ m.active_tokens)
        × ((contract (length added) t).1 ≡ backwards added)
  contract-expand count m =
      let (t, added) = expand above count m in
      let e = contract_run t m.active_tokens added (expand-Expanded above count m).tokens in
      (ap (λ r. r.0.active_tokens) e, ap (λ r. r.1) e)
