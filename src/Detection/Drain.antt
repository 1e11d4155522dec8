-- ===== src/Detection/Drain.antt =====
-- Every dirty cluster gets its turn (src/application/cluster/service.rs).
use edgelord.Common.{
  Option, some, none, Result, ok, err, Bool-cases, inl, inr, ==_iff, ◌==◌, ℕ, zero, suc, ◌-◌, ◌*◌,
  ◌≤◌, ◌≡◌, ◌∙◌, ap, refl, true, ◌&&◌, not, List, [], ◌∷◌, ◌++◌, length, contains,
  contains-set_remove, set_remove, ==_refl, string_eq, arith,
}
use edgelord.Money.{Decimal}
use edgelord.Domain.Id.{ClusterId, Time}
use edgelord.Exchange.Pool.{take}
use edgelord.Detection.Detector.{ClusterOpportunity, DetectionError}
use edgelord.Detection.Service.{
  ClusterDetectionService, take_dirty, remove_ids, run_detection, detect_each, detect_cluster,
  keep_found,
}
use mathlib.Core.List.{append_assoc}

set_remove_comm :
    (a b : ClusterId) (xs : List ClusterId)
    → set_remove a (set_remove b xs) ≡ set_remove b (set_remove a xs)
unfolding set_remove
set_remove_comm a b [] = refl
set_remove_comm a b (x ∷ xs) = let rest = set_remove_comm a b xs in ground (arith, rest)

remove_ids-set_remove :
    (a : ClusterId) (ids xs : List ClusterId)
    → remove_ids ids (set_remove a xs) ≡ set_remove a (remove_ids ids xs)
unfolding remove_ids
remove_ids-set_remove a [] xs = refl
remove_ids-set_remove a (id ∷ ids) xs =
    ap (remove_ids ids) (set_remove_comm id a xs) ∙ remove_ids-set_remove a ids (set_remove id xs)

length-set_remove-le : (a : ClusterId) (xs : List ClusterId) → length (set_remove a xs) ≤ length xs
unfolding set_remove
length-set_remove-le a [] = omega arith
length-set_remove-le a (x ∷ xs) = let rest = length-set_remove-le a xs in ground (arith, rest)

length-remove_ids :
    (limit : ℕ) (xs : List ClusterId) → length (remove_ids (take limit xs) xs) ≤ length xs - limit
unfolding remove_ids take set_remove
length-remove_ids zero xs = omega arith
length-remove_ids (suc n) [] = omega arith
length-remove_ids (suc n) (x ∷ xs) =
    let rest = length-remove_ids n xs in
    let less = length-set_remove-le x (remove_ids (take n xs) xs) in
    let moved = ap length (remove_ids-set_remove x (take n xs) xs) in
    ground (arith, rest, less, moved, ==_refl x)

contains-remove_ids :
    (id : ClusterId) (ids xs : List ClusterId)
    → contains id (remove_ids ids xs) ≡ (contains id xs && not (contains id ids))
unfolding remove_ids contains
contains-remove_ids id [] xs = ground arith
contains-remove_ids id (a ∷ ids) xs =
    ground (arith, contains-remove_ids id ids (set_remove a xs), contains-set_remove a id xs)

-- The list holds this.
abbrev pub IsAmong : {A : Type 0} → A → List A → Type 0
IsAmong {A} a xs = (before : List A) × (after : List A) × (xs ≡ before ++ (a ∷ after))

IsAmong-cons : {A : Type 0} {a : A} (b : A) {xs : List A} → IsAmong a xs → IsAmong a (b ∷ xs)
IsAmong-cons b (before, after, e) = (b ∷ before, after, ap (◌∷◌ b) e)

IsAmong-left :
    {A : Type 0} {a : A} {xs : List A} (bs : List A) → IsAmong a xs → IsAmong a (xs ++ bs)
IsAmong-left {a} bs (before, after, e) =
    (before, after ++ bs, ap (λ cs. cs ++ bs) e ∙ append_assoc before (a ∷ after) bs)

IsAmong-right :
    {A : Type 0} {a : A} (bs : List A) {xs : List A} → IsAmong a xs → IsAmong a (bs ++ xs)
IsAmong-right [] h = h
IsAmong-right (b ∷ bs) h = IsAmong-cons b (IsAmong-right bs h)

no_dirty : (id : ClusterId) (ids : List ClusterId) → length ids ≡ 0 → contains id ids ≡ true → ⊥
unfolding contains
no_dirty id [] h c = cc
no_dirty id (x ∷ xs) h c = omega arith

module _ {D E F : Type 0} ⦃d : Decimal D⦄ where
  -- What the cycles report, when `run_detection` is called some times in a row.
  unfoldable pub reported_in :
      Time → ℕ → ClusterDetectionService D E F → List (ClusterOpportunity D)
  reported_in now zero s = []
  reported_in now (suc n) s = let (found, t) = run_detection now s in found ++ reported_in now n t

  -- What there is to find on one of the clusters is among the results.
  IsAmong-detect_each :
      (now : Time) (s : ClusterDetectionService D E F) (id : ClusterId)
      (found : ClusterOpportunity D)
      → detect_cluster now s id ≡ ok (some found)
      → (ids : List ClusterId) → contains id ids ≡ true
      → IsAmong found (detect_each now s ids)
  unfolding detect_each contains
  IsAmong-detect_each now s id found h [] c = absurd (cc)
  IsAmong-detect_each now s id found h (first ∷ ids) c = elim (Bool-cases (first == id)) [
    | inl e ↦
        let same : first ≡ id = (==_iff first id).0 e in
        rw (same, h) ([], detect_each now s ids, refl)
    | inr e ↦ kept (detect_cluster now s first) (
        IsAmong-detect_each now s id found h ids
          (ground (arith, c, e, ==_iff first id, ==_iff id first)))
  ]
    where
      kept :
          (r : Result (Option (ClusterOpportunity D)) (DetectionError D E))
          → IsAmong found (detect_each now s ids)
          → IsAmong found (keep_found r (detect_each now s ids))
      kept (ok (some other)) i = IsAmong-cons other i
      kept (ok none) i = i
      kept (err e) i = i

  -- The detection of one cluster does not depend on which are dirty.
  detect_cluster-dirty :
      (now : Time) (s : ClusterDetectionService D E F) (id : ClusterId) (dirty : List ClusterId)
      → detect_cluster now (record s { dirty_clusters = dirty }) id ≡ detect_cluster now s id
  unfolding detect_cluster
  detect_cluster-dirty now s id dirty = refl

  -- When no book and no cluster changes meanwhile, what there is to find on a dirty cluster is reported
  -- in the next cycles, if no more clusters are dirty than these cycles together may look at.
  pub reported-dirty :
      (now : Time) (n : ℕ) (s : ClusterDetectionService D E F) (id : ClusterId)
      (found : ClusterOpportunity D)
      → length s.dirty_clusters ≤ n * s.config.max_clusters_per_cycle
      → contains id s.dirty_clusters ≡ true
      → detect_cluster now s id ≡ ok (some found)
      → IsAmong found (reported_in now n s)
  unfolding reported_in run_detection take_dirty
  reported-dirty now zero s id found h c f =
      absurd (no_dirty id s.dirty_clusters (omega (arith, h)) c)
  reported-dirty now (suc n) s id found h c f =
      let limit = s.config.max_clusters_per_cycle in
      let now_taken = take limit s.dirty_clusters in
      let left = remove_ids now_taken s.dirty_clusters in
      let fewer : length left ≤ n * limit =
        omega (arith, length-remove_ids limit s.dirty_clusters) in
      elim (Bool-cases (contains id now_taken)) [
        | inl e ↦ IsAmong-left _ (IsAmong-detect_each now s id found f now_taken e)
        | inr e ↦
            let stays : contains id left ≡ true =
              ground (arith, c, e, contains-remove_ids id now_taken s.dirty_clusters) in
            IsAmong-right (detect_each now s now_taken) (
              reported-dirty now n (record s { dirty_clusters = left }) id found fewer stays
                (detect_cluster-dirty now s id left ∙ f))
      ]
