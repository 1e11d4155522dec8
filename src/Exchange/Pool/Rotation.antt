-- ===== src/Exchange/Pool/Rotation.antt =====
-- What the replacements keep, in any order of their parts
-- (src/infrastructure/exchange/pool/replace.rs).
use edgelord.Common.{
  ℕ, zero, suc, ◌≡◌, ◌∙◌, ap, refl, subst, List, [], ◌∷◌, ◌++◌, map, some, get_elem?, set, All,
  Option-cases, inl, inr, arith,
}
use edgelord.Domain.Id.{TokenId}
use edgelord.Exchange.Pool.Connections.{ConnectionState, ConnectionPool, new_connection}
use edgelord.Exchange.Pool.Manage.{ReplacementJob}
use edgelord.Exchange.Pool.Replace.{
  Handover, Managed, begin, give_up, swap, drain, Step, began, gave_up, swapped, drained, Reach,
  here, next,
}

-- The tokens of each slot of the pool.
abbrev pub slots : ConnectionPool → List (List TokenId)
slots p = map (λ c. c.tokens) p.connections

abbrev pub Fits : List (List TokenId) → Handover → Type 0
Fits ts h = get_elem? ts h.job.index ≡ some h.state.tokens

-- The slots hold the tokens `ts`, and so do the replacements that wait.
pub record Keeps (ts : List (List TokenId)) (m : Managed) : Type 0 where
  pub slots_same : slots m.pool ≡ ts
  pub handovers_fit : All (Fits ts) m.handovers

slots-set :
    (cs : List ConnectionState) (i : ℕ) (s : ConnectionState)
    → get_elem? (map (λ c. c.tokens) cs) i ≡ some s.tokens
    → map (λ c. c.tokens) (set cs i s) ≡ map (λ c. c.tokens) cs
slots-set [] i s h = refl
slots-set (c ∷ cs) zero s h = ground (arith, h)
slots-set (c ∷ cs) (suc i) s h = ap (◌∷◌ c.tokens) (slots-set cs i s h)

get_elem?-slots :
    (cs : List ConnectionState) (i : ℕ) {c : ConnectionState}
    → get_elem? cs i ≡ some c
    → get_elem? (map (λ c. c.tokens) cs) i ≡ some c.tokens
get_elem?-slots [] i h = cc
get_elem?-slots (c ∷ cs) zero h = ground (arith, h)
get_elem?-slots (c ∷ cs) (suc i) h = get_elem?-slots cs i h

All-taken {ℓ κ} :
    {A : Type ℓ} (P : A → Type κ) (before after : List A) {a : A}
    → All P (before ++ (a ∷ after))
    → P a × All P (before ++ after)
All-taken P [] after all = all
All-taken P (b ∷ before) after (first, others) =
    let (taken, left) = All-taken P before after others in (taken, (first, left))

begin-Fits :
    (clocks : ℕ → ℕ × ℕ) (m : Managed) (job : ReplacementJob) (new_id : ℕ) {h : Handover}
    {p : ConnectionPool}
    → begin clocks job new_id m.pool ≡ some (h, p)
    → (slots p ≡ slots m.pool) × Fits (slots m.pool) h
unfolding begin new_connection
begin-Fits clocks m job new_id e = elim (Option-cases (get_elem? m.pool.connections job.index)) [
  | inl none_there ↦ absurd (ground (arith, e, none_there))
  | inr (c, found) ↦ ground (arith, e, found, get_elem?-slots m.pool.connections job.index found)
]

slots-swap :
    (ts : List (List TokenId)) (h : Handover) (p : ConnectionPool)
    → slots p ≡ ts
    → Fits ts h
    → slots (swap h p).1 ≡ ts
unfolding swap
slots-swap ts h p e f =
    let same = slots-set p.connections h.job.index h.state in ground (arith, e, f, same)

Step-Keeps :
    (clocks : ℕ → ℕ × ℕ) (ts : List (List TokenId)) {m n : Managed}
    → Step clocks m n
    → Keeps ts m
    → Keeps ts n
unfolding give_up drain
Step-Keeps clocks ts {m = m} (began job new_id h p e) k =
    let (same, fits) = begin-Fits clocks m job new_id e in
    record {
      slots_same = same ∙ k.slots_same;
      handovers_fit = (subst (λ us. Fits us h) k.slots_same fits, k.handovers_fit);
    }
Step-Keeps clocks ts (gave_up before after h e) k = record {
  slots_same = k.slots_same;
  handovers_fit =
      (All-taken (Fits ts) before after {a = h} (subst (All (Fits ts)) e k.handovers_fit)).1;
}
Step-Keeps clocks ts {m = m} (swapped before after h e) k =
    let (fits, left) =
      All-taken (Fits ts) before after {a = h} (subst (All (Fits ts)) e k.handovers_fit) in
    record { slots_same = slots-swap ts h m.pool k.slots_same fits; handovers_fit = left }
Step-Keeps clocks ts (drained before after d e) k = record {
  slots_same = k.slots_same;
  handovers_fit = k.handovers_fit;
}

Reach-Keeps :
    (clocks : ℕ → ℕ × ℕ) (ts : List (List TokenId)) {m n : Managed}
    → Reach clocks m n
    → Keeps ts m
    → Keeps ts n
Reach-Keeps clocks ts here k = k
Reach-Keeps clocks ts (next r step) k = Step-Keeps clocks ts step (Reach-Keeps clocks ts r k)

-- However the parts of the replacements are ordered, from a pool in which none waits every connection
-- keeps its tokens: none is lost, given twice or moved to another connection.
pub Reach-slots :
    (clocks : ℕ → ℕ × ℕ) (p : ConnectionPool) {m : Managed}
    → Reach clocks (record { pool = p; handovers = []; draining = [] }) m
    → slots m.pool ≡ slots p
Reach-slots clocks p r =
    (Reach-Keeps clocks (slots p) r (record { slots_same = refl; handovers_fit = tt })).slots_same
