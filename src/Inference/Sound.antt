-- ===== src/Inference/Sound.antt =====
-- Full inference (src/application/inference/service.rs) names only the markets that it was given.
use edgelord.Common.{
  ℕ, zero, suc, ◌≡◌, refl, List, [], ◌∷◌, String, some, Result, IfOk, ok, err, All, All-append,
  Bool-cases, inl, inr, ltb, length, length-append, contains, ◌==◌, ==_iff, string_eq, arith,
}
use edgelord.Money.{Decimal}
use edgelord.Domain.Id.{MarketId, RelationId, ClusterId, Time}
use edgelord.Domain.Relation.{Relation, kind_market_ids}
use edgelord.Exchange.Pool.{chunks, chunks_from, take, drop}
use edgelord.Cache.Clusters.{ClusterCache}
use edgelord.Inference.Inferrer.{MarketSummary, RawRelation, infer}
use edgelord.Inference.Batches.{
  Inferrer, Run, after_batch, run_batch, run_batches, run_full_inference, question_of, questions,
  no_run, detail_of,
}
use edgelord.Inference.Known.{
  IsKnown, AreKnown, RelationsKnown, All-map, IsKnown-self, infer-RelationsKnown,
}

module _ {ℓ κ} {A : Type ℓ} (P : A → Type κ) where
  All-take : (n : ℕ) (xs : List A) → All P xs → All P (take n xs)
  unfolding take
  All-take zero xs h = tt
  All-take (suc n) [] h = tt
  All-take (suc n) (x ∷ xs) (here, later) = (here, All-take n xs later)

  All-drop : (n : ℕ) (xs : List A) → All P xs → All P (drop n xs)
  unfolding drop
  All-drop zero xs h = h
  All-drop (suc n) [] h = tt
  All-drop (suc n) (x ∷ xs) (here, later) = All-drop n xs later

  All-chunks_from :
      (fuel size : ℕ) (xs : List A) → All P xs → All (All P) (chunks_from fuel size xs)
  unfolding chunks_from
  All-chunks_from zero size xs h = tt
  All-chunks_from (suc fuel) size [] h = tt
  All-chunks_from (suc fuel) size (x ∷ xs) h = (
    All-take size (x ∷ xs) h,
    All-chunks_from fuel size (drop size (x ∷ xs)) (All-drop size (x ∷ xs) h),
  )

-- A market of a part is one of the whole.
widen :
    (part whole : List MarketSummary)
    → All (λ m. IsKnown whole m.id) part
    → (id : MarketId) → IsKnown part id
    → IsKnown whole id
unfolding contains
widen [] whole h id k = cc
widen (m ∷ part) whole (here, later) id k =
    ground (arith, ==_iff m.id id, widen part whole later id)

widen-RelationsKnown :
    {D F : Type 0} (part whole : List MarketSummary) (rs : List (Relation D F))
    → All (λ m. IsKnown whole m.id) part
    → RelationsKnown part rs
    → RelationsKnown whole rs
widen-RelationsKnown part whole rs inside =
    All-map _ _ rs (λ r.
      All-map (IsKnown part) (IsKnown whole) (kind_market_ids r.kind) (widen part whole inside))

-- An inferrer that names only markets it was asked about.
abbrev pub IsSound : {D F E : Type 0} → Inferrer D F E → Type 0
IsSound x = (i : ℕ) (chunk : List MarketSummary) → IfOk (RelationsKnown chunk) (x.infer i chunk)

module _ {D F E : Type 0} ⦃d : Decimal D⦄ (x : Inferrer D F E) (sound : IsSound x)
    (whole : List MarketSummary) where
  record Good (r : Run D F) : Type 0 where
    known : RelationsKnown whole r.all_relations
    counted : r.total_relations ≡ length r.all_relations

  after_batch-Good :
      (i : ℕ) (answer : Result (List (Relation D F)) E) (r : Run D F)
      → IfOk (RelationsKnown whole) answer
      → Good r
      → Good (after_batch x i answer r)
  unfolding after_batch
  after_batch-Good i (err e) r named good = good
  after_batch-Good i (ok []) r named good = record { known = good.known; counted = good.counted }
  after_batch-Good i (ok (n ∷ ns)) r named good = record {
    known = All-append _ r.all_relations (n ∷ ns) good.known named;
    counted = omega (arith, good.counted, length-append r.all_relations (n ∷ ns));
  }

  widened :
      (chunk : List MarketSummary) (answer : Result (List (Relation D F)) E)
      → All (λ m. IsKnown whole m.id) chunk
      → IfOk (RelationsKnown chunk) answer
      → IfOk (RelationsKnown whole) answer
  widened chunk (err e) inside named = tt
  widened chunk (ok relations) inside named =
      widen-RelationsKnown chunk whole relations inside named

  run_batch-Good :
      (i : ℕ) (chunk : List MarketSummary) (r : Run D F)
      → All (λ m. IsKnown whole m.id) chunk
      → Good r
      → Good (run_batch x i chunk r)
  unfolding run_batch
  run_batch-Good i chunk r inside good = elim (Bool-cases (ltb (length chunk) 2)) [
    | inl small ↦ rw (small, run_batch) good
    | inr large ↦
        rw (large, run_batch)
          (after_batch-Good i (x.infer i chunk) r
            (widened chunk (x.infer i chunk) inside (sound i chunk)) good)
  ]

  run_batches-Good :
      (i : ℕ) (parts : List (List MarketSummary)) (r : Run D F)
      → All (All (λ m. IsKnown whole m.id)) parts
      → Good r
      → Good (run_batches x i parts r)
  unfolding run_batches
  run_batches-Good i [] r inside good = good
  run_batches-Good i (chunk ∷ parts) r (here, later) good =
      run_batches-Good (suc i) parts (run_batch x i chunk r) later
        (run_batch-Good i chunk r here good)

module _ {D F E : Type 0} ⦃d : Decimal D⦄ (x : Inferrer D F E) (sound : IsSound x) where
  run_full_inference-RelationsKnown :
      (markets : List MarketSummary) (batch_size : ℕ) (cache : ClusterCache D F)
      → RelationsKnown markets (run_full_inference x markets batch_size cache).0.relations
        × ((run_full_inference x markets batch_size cache).0.relations_discovered
            ≡ length (run_full_inference x markets batch_size cache).0.relations)
  unfolding run_full_inference
  run_full_inference-RelationsKnown markets batch_size cache =
      let inside = All-chunks_from _ (length markets) batch_size markets (IsKnown-self markets) in
      let good =
        run_batches-Good x sound markets 0 (chunks batch_size markets) (no_run x cache) inside
          (record { known = tt; counted = refl }) in
      elim (Bool-cases (ltb (length markets) 2)) [
        | inl small ↦ rw (small, run_full_inference) (tt, refl)
        | inr large ↦ rw (large, run_full_inference) (good.known, good.counted)
      ]

question-known :
    (markets : List MarketSummary) (id : MarketId)
    → IsKnown markets id
    → (q : String) × (question_of id markets ≡ some q)
unfolding question_of contains
question-known [] id h = cc
question-known (m ∷ ms) id h = elim (Bool-cases (m.id == id)) [
  | inl e ↦ (m.question, rw (e, question_of))
  | inr e ↦
      let (q, found) = question-known ms id (ground (arith, e, h)) in (q, rw (e, question_of) found)
]

-- A known market has its question.
length-questions :
    (markets : List MarketSummary) (ids : List MarketId)
    → AreKnown markets ids
    → length (questions markets ids) ≡ length ids
unfolding questions
length-questions markets [] h = refl
length-questions markets (id ∷ ids) (here, later) =
    ground (arith, question-known markets id here, length-questions markets ids later)

-- The inferrer that asks a language model: its clock, its new identifiers and the model's answers, for
-- each batch.
pub record Model (F E : Type 0) : Type 0 where
  pub complete : ℕ → List MarketSummary → Result (List (RawRelation F)) E
  pub relation_id : ℕ → ℕ → RelationId
  pub now : ℕ → Time
  pub ttl : ℕ
  pub cluster_id : ℕ → ClusterId

abbrev pub llm_inferrer : {F E : Type 0} → (D : Type 0) → Model F E → Inferrer D F E
llm_inferrer D m = record {
  infer = λ i chunk. infer (m.relation_id i) (m.now i) m.ttl (m.complete i) chunk;
  cluster_id = m.cluster_id;
  clock = m.now;
}

module _ {D F E : Type 0} ⦃d : Decimal D⦄ (m : Model F E) where
  -- Whatever the language model answers, and for batches of any size but 0, each relation that a full
  -- inference reports names markets that it was given only, the reported number is that of the
  -- relations, and what is told of a relation has a question for each of its markets.
  pub run_full_inference-Known :
      (markets : List MarketSummary) (batch_size : ℕ) (cache : ClusterCache D F)
      → RelationsKnown markets
          (run_full_inference (llm_inferrer D m) markets batch_size cache).0.relations
        × ((run_full_inference (llm_inferrer D m) markets batch_size cache).0.relations_discovered
            ≡ length (run_full_inference (llm_inferrer D m) markets batch_size cache).0.relations)
        × All
            (λ r. length (detail_of markets r).market_questions ≡ length (kind_market_ids r.kind))
            (run_full_inference (llm_inferrer D m) markets batch_size cache).0.relations
  run_full_inference-Known markets batch_size cache =
      let x = llm_inferrer D m in
      let sound : IsSound x =
        λ i chunk. infer-RelationsKnown D (m.relation_id i) (m.now i) m.ttl (m.complete i) chunk in
      let (known, counted) = run_full_inference-RelationsKnown x sound markets batch_size cache in
      (
        known,
        counted,
        All-map _ _ (run_full_inference x markets batch_size cache).0.relations
            (λ r. length-questions markets (kind_market_ids r.kind)) known,
      )
