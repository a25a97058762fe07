-- ===== src/Controller/ScaleUp.antt =====
-- The branch of `reconcileReplicas` that creates pods: where its calls lead.
use fa_st_gshare.Common.Float.{Floats}
use fa_st_gshare.Common.Outcome.{Outcome, returns, panics}
use fa_st_gshare.Common.{
  ℕ, zero, suc, ◌≡◌, ◌⊎◌, some, Option-cases, List, length, ◌≤◌, ◌∷◌, ◌++◌, [], arith, refl, sym,
  ◌∙◌, ap, subst, inl, inr,
}
use fa_st_gshare.Kube.{FastPod, Pod}
use fa_st_gshare.Nodes.Cluster.{World, Handler, Reach}
use fa_st_gshare.Replicas.Batch.{Called, Started}
use fa_st_gshare.Replicas.BatchLaws.{after, slow_start_batch-ends, slow_start_batch-calls}
use fa_st_gshare.Controller.NewPod.{PodSpec}
use fa_st_gshare.Controller.Create.{Creating, Surroundings, create_pod, create_or_panic, scale_up}
use fa_st_gshare.Controller.CreateLaws.{cluster, Grown, create_pod-Progress}

Outcome-cases : {A : Type 0} (o : Outcome A) → (o ≡ panics) ⊎ ((a : A) × (o ≡ returns a))
Outcome-cases panics = inl refl
Outcome-cases (returns a) = inr (a, refl)

append_assoc : {A : Type 0} (xs ys zs : List A) → (xs ++ ys) ++ zs ≡ xs ++ (ys ++ zs)
append_assoc [] ys zs = refl
append_assoc (x ∷ xs) ys zs = ap (λ k. x ∷ k) (append_assoc xs ys zs)

append_nil : {A : Type 0} (xs : List A) → xs ++ [] ≡ xs
append_nil [] = refl
append_nil (x ∷ xs) = ap (λ k. x ∷ k) (append_nil xs)

module _ {F : Type 0} ⦃fl : Floats F⦄ where
  -- Where the calls have come to, at most `n` pods after `s`: a panic, or a state that is reached.
  abbrev pub Advanced : World → List Handler → ℕ → Creating F → Outcome (Creating F) → Type 0
  Advanced w hs n s o =
      (o ≡ panics)
      ⊎ ((t : Creating F) × (o ≡ returns t)
          × Reach w (cluster hs t)
          × ((added : List Pod) × (t.pods ≡ s.pods ++ added) × (length added ≤ n)))

  after_panic-Advanced :
      {w : World} {hs : List Handler} (env : Surroundings F) (fp : FastPod) (spec : PodSpec)
      (n k : ℕ) (s : Creating F)
      → Advanced w hs k s (after (create_or_panic env fp spec) n panics)
  unfolding create_or_panic
  after_panic-Advanced env fp spec zero k s = inl refl
  after_panic-Advanced env fp spec (suc n) k s = after_panic-Advanced env fp spec n k s

  -- One call more before.
  Progress-Advanced :
      {w : World} {hs : List Handler} (n : ℕ) (s : Creating F) (r : Called × Creating F)
      (o : Outcome (Creating F))
      → Grown s r
      → Advanced w hs n r.1 o
      → Advanced w hs (suc n) s o
  Progress-Advanced n s r o g (inl stuck) = inl stuck
  Progress-Advanced n s r o (inl (_, (p, pods))) (inr (t, at, reached, (added, grown, few))) = inr (
    t,
    at,
    reached,
    (
      p ∷ added,
      grown ∙ ap (λ k. k ++ added) pods ∙ append_assoc s.pods (p ∷ []) added,
      omega arith,
    ),
  )
  Progress-Advanced n s r o (inr (_, pods)) (inr (t, at, reached, (added, grown, few))) =
      inr (t, at, reached, (added, grown ∙ ap (λ k. k ++ added) pods, omega arith))

  after-Advanced :
      {w : World} {hs : List Handler} (env : Surroundings F) (fp : FastPod) (spec : PodSpec) (n : ℕ)
      (s : Creating F)
      → Reach w (cluster hs s)
      → Advanced w hs n s (after (create_or_panic env fp spec) n (returns s))
  unfolding create_or_panic
  after-Advanced env fp spec zero s reached =
      inr (s, refl, reached, ([], sym (append_nil s.pods), omega arith))
  after-Advanced {w = w} {hs = hs} env fp spec (suc n) s reached =
      elim (Outcome-cases (create_pod env fp spec s)) [
        | inl stuck ↦ rw (stuck, create_or_panic) (after_panic-Advanced env fp spec n (suc n) s)
        | inr (r, went) ↦
            let (next, grown) = create_pod-Progress {w = w} {hs = hs} env fp spec s reached went in
            Progress-Advanced n s r _ grown
              (rw (went, create_or_panic) (after-Advanced env fp spec n r.1 next))
      ]

  Advanced-le :
      {w : World} {hs : List Handler} (n k : ℕ) (s : Creating F) (o : Outcome (Creating F))
      → n ≤ k
      → Advanced w hs n s o
      → Advanced w hs k s o
  Advanced-le n k s o h (inl stuck) = inl stuck
  Advanced-le n k s o h (inr (t, at, reached, (added, grown, few))) =
      inr (t, at, reached, (added, grown, omega arith))

  -- The creating branch for `diff` missing pods, started in a state that the system reaches: it
  -- ends within the fuel that it is given, and either a call panicked, or the system is in a state
  -- that it reaches, and the pods are those before with at most `diff` new ones after them.
  pub scale_up-Reach :
      {w : World} {hs : List Handler} (env : Surroundings F) (fp : FastPod) (spec : PodSpec)
      (initial diff : ℕ) (s : Creating F)
      → Reach w (cluster hs s)
      → (r : Started (Outcome (Creating F))) × (scale_up env fp spec initial diff s ≡ some r)
        × Advanced w hs diff s r.state
  unfolding scale_up
  scale_up-Reach {w = w} {hs = hs} env fp spec initial diff s reached =
      elim (Option-cases (scale_up env fp spec initial diff s)) [
        | inl stuck ↦
            absurd
              (slow_start_batch-ends (create_or_panic env fp spec) diff initial (returns s) stuck)
        | inr (r, ran) ↦
            let (k, below, at) =
              slow_start_batch-calls (create_or_panic env fp spec) diff initial (returns s) ran in
            (
              r,
              ran,
              subst (λ o. Advanced w hs diff s o) at
                  (Advanced-le k diff s _ below (after-Advanced env fp spec k s reached)),
            )
      ]
