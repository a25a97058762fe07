-- ===== src/Controller/ScaleDownLaws.antt =====
-- What the deleting branch of `reconcileReplicas` deletes, and when it ends.
use fa_st_gshare.Common.Int.{ℤ}
use fa_st_gshare.Common.Dict.{Dict, lookup, erase, lookup-erase}
use fa_st_gshare.Common.Float.{Floats}
use fa_st_gshare.Common.Outcome.{Outcome, returns, panics, >>=-returns}
use fa_st_gshare.Common.{
  ℕ, suc, Bool, ltb, ◌==◌, ◌≤◌, ◌<◌, ◌≡◌, ◌⊎◌, length, true, false, none, List, [], ◌∷◌, ◌++◌,
  String, eq_iff, arith, refl, sym, ap, subst, ◌∙◌, inl, inr,
}
use fa_st_gshare.Kube.{Pod}
use fa_st_gshare.Manager.Remove.{remove_pod_from_list}
use fa_st_gshare.Nodes.Cluster.{World, Handler, Reach, later, remove}
use fa_st_gshare.Replicas.Pods.{Ranked}
use fa_st_gshare.Replicas.Order.{Cluster}
use fa_st_gshare.Replicas.Scale.{Sorter, get_pods_to_delete, chosen_pods}
use fa_st_gshare.Replicas.ScaleLaws.{length-chosen_pods, every_pod, every-chosen_pods}
use fa_st_gshare.Controller.ScaleDown.{
  Deleting, Reached, finished, stuck, first_error, with_channel, pods_of, errors_of, delete_pod,
  delete_pods, scale_down,
}

same_result {ℓ} : {A : Type ℓ} {a b : A} → ◌≡◌ {A = Outcome A} (returns a) (returns b) → a ≡ b
same_result e = cc

append_assoc {ℓ} : {A : Type ℓ} (xs ys zs : List A) → (xs ++ ys) ++ zs ≡ xs ++ (ys ++ zs)
append_assoc [] ys zs = refl
append_assoc (x ∷ xs) ys zs = ap (λ k. x ∷ k) (append_assoc xs ys zs)

append_nil {ℓ} : {A : Type ℓ} (xs : List A) → xs ++ [] ≡ xs
append_nil [] = refl
append_nil (x ∷ xs) = ap (λ k. x ∷ k) (append_nil xs)

length-pods_of : (l : List Ranked) → length (pods_of l) ≡ length l
length-pods_of [] = refl
length-pods_of (r ∷ l) = ap suc (length-pods_of l)

-- The errors of the deletions of a list of pods.
abbrev pub all_errors : Reached → List Pod → List String
all_errors env [] = []
all_errors env (p ∷ rest) = errors_of (env.delete p) ++ all_errors env rest

module _ {V : Type 0} where
  -- No pod of the list has an entry under its name.
  abbrev pub Gone : Dict V → List Pod → Type 0
  Gone d [] = Unit
  Gone d (p ∷ rest) = (lookup p.name d ≡ none) × Gone d rest

  -- What has no entry has none after another entry leaves.
  erase-none : (k j : String) (d : Dict V) → lookup j d ≡ none → lookup j (erase k d) ≡ none
  erase-none k j d e = ground (arith, lookup-erase k j d)

  erased : (k : String) (d : Dict V) → lookup k (erase k d) ≡ none
  erased k d = ground (arith, lookup-erase k k d, eq_iff k k)

module _ {F : Type 0} ⦃fl : Floats F⦄ where
  -- What the goroutines of a list of pods leave, in a system with these other goroutines.
  pub record DeletedAll (w : World) (hs : List Handler) (env : Reached) (s : Deleting F)
      (pods : List Pod) (t : Deleting F) : Type 0 where
    pub asked : t.asked ≡ s.asked ++ pods
    pub unbound : Gone t.bound_device_ids pods
    pub no_port : Gone t.gpu_client_port pods
    pub errors : t.errors ≡ s.errors ++ all_errors env pods
    pub reached : Reach w (record { manager = t.manager; handlers = hs })

  delete_pods-kept :
      (env : Reached) (j : String) (s : Deleting F) (pods : List Pod) {t : Deleting F}
      → delete_pods env s pods ≡ returns t
      → (lookup j s.bound_device_ids ≡ none → lookup j t.bound_device_ids ≡ none)
        × (lookup j s.gpu_client_port ≡ none → lookup j t.gpu_client_port ≡ none)
  unfolding delete_pods delete_pod
  delete_pods-kept env j s [] e = (
    λ h. subst (λ (k : Deleting F). lookup j k.bound_device_ids ≡ none) (same_result e) h,
    λ h. subst (λ (k : Deleting F). lookup j k.gpu_client_port ≡ none) (same_result e) h,
  )
  delete_pods-kept env j s (p ∷ rest) e =
      let (u, one, e1) = >>=-returns (delete_pod env s p) _ e in
      let (r, _, made) =
        >>=-returns (remove_pod_from_list (env.rpc p) env.to_upper s.manager p) _ one in
      let (ids, ports) = delete_pods-kept env j u rest e1 in
      (
        λ h. ids (
            subst (λ (k : Deleting F). lookup j k.bound_device_ids ≡ none) (same_result made)
              (erase-none p.name j s.bound_device_ids h)),
        λ h. ports (
            subst (λ (k : Deleting F). lookup j k.gpu_client_port ≡ none) (same_result made)
              (erase-none p.name j s.gpu_client_port h)),
      )

  delete_pods-DeletedAll :
      {w : World} {hs : List Handler} (env : Reached) (s : Deleting F) (pods : List Pod)
      {t : Deleting F}
      → w.to_upper ≡ env.to_upper
      → Reach w (record { manager = s.manager; handlers = hs })
      → delete_pods env s pods ≡ returns t
      → DeletedAll w hs env s pods t
  unfolding delete_pods delete_pod
  delete_pods-DeletedAll {w = w} {hs = hs} env s [] upper reached e =
      subst (λ (k : Deleting F). DeletedAll w hs env s [] k) (same_result e)
        (record {
          asked = sym (append_nil s.asked);
          unbound = tt;
          no_port = tt;
          errors = sym (append_nil s.errors);
          reached = reached;
        })
  delete_pods-DeletedAll {w = w} {hs = hs} env s (p ∷ rest) upper reached e =
      let (u, one, e1) = >>=-returns (delete_pod env s p) _ e in
      let (r, removed, made) =
        >>=-returns (remove_pod_from_list (env.rpc p) env.to_upper s.manager p) _ one in
      let same = same_result made in
      let next : Reach w (record { manager = u.manager; handlers = hs }) =
        subst (λ (k : Deleting F). Reach w (record { manager = k.manager; handlers = hs })) same
          (later reached (
            remove (env.rpc p) p (
              subst (λ f. remove_pod_from_list (env.rpc p) f s.manager p ≡ returns r) (sym upper)
                removed))) in
      let d = delete_pods-DeletedAll {w = w} {hs = hs} env u rest upper next e1 in
      let (ids, ports) = delete_pods-kept env p.name u rest e1 in
      record {
        asked =
            d.asked
            ∙ ap (λ (k : Deleting F). k.asked ++ rest) (sym same)
            ∙ append_assoc s.asked (p ∷ []) rest;
        unbound = (
          ids (
              subst (λ (k : Deleting F). lookup p.name k.bound_device_ids ≡ none) same
                (erased p.name s.bound_device_ids)),
          d.unbound,
        );
        no_port = (
          ports (
              subst (λ (k : Deleting F). lookup p.name k.gpu_client_port ≡ none) same
                (erased p.name s.gpu_client_port)),
          d.no_port,
        );
        errors =
            d.errors
            ∙ ap (λ (k : Deleting F). k.errors ++ all_errors env rest) (sym same)
            ∙ append_assoc s.errors (errors_of (env.delete p)) (all_errors env rest);
        reached = d.reached;
      }

  pub scale_down-finished :
      {w : World} {hs : List Handler} (cl : Cluster) (sorter : Sorter) (env : Reached) (now : ℤ)
      (existed : List Pod) (diff : ℕ) (s : Deleting F)
      → w.to_upper ≡ env.to_upper
      → Reach w (record { manager = s.manager; handlers = hs })
      → diff < length existed
      → (scale_down cl sorter env now existed diff s ≡ panics)
        ⊎ ((pods : List Pod) × (t : Deleting F) × (length pods ≡ diff)
            × ((p : Pod → Bool) → every_pod p existed ≡ true → every_pod p pods ≡ true)
            × (scale_down cl sorter env now existed diff s
                ≡ returns (finished t (first_error (all_errors env pods))))
            × DeletedAll w hs env (with_channel s) pods t)
  unfolding scale_down
  scale_down-finished {w = w} {hs = hs} cl sorter env now existed diff s upper reached h =
      let pods = pods_of (chosen_pods (get_pods_to_delete cl sorter now existed diff)) in
      let size : length pods ≡ diff =
        length-pods_of _ ∙ length-chosen_pods cl sorter now existed diff h in
      elim (Outcome-cases (delete_pods env (with_channel s) pods)) [
        | inl stuck_at ↦ inl (rw (stuck_at, scale_down) refl)
        | inr (t, went) ↦
            let d =
              delete_pods-DeletedAll {w = w} {hs = hs} env (with_channel s) pods upper reached
                went in
            inr (
              pods,
              t,
              size,
              λ p. every-chosen_pods cl sorter now p existed diff,
              rw (went, scale_down, counted size)
                  (ap (λ l. returns (finished t (first_error l))) d.errors),
              d,
            )
      ]
    where
      counted : {a b : ℕ} → a ≡ b → (a == b) ≡ true
      counted e = ground arith

      Outcome-cases : {A : Type 0} (o : Outcome A) → (o ≡ panics) ⊎ ((a : A) × (o ≡ returns a))
      Outcome-cases panics = inl refl
      Outcome-cases (returns a) = inr (a, refl)

  -- Scaling down all the pods, one at least, never ends, and deletes none.
  pub scale_down-stuck :
      (cl : Cluster) (sorter : Sorter) (env : Reached) (now : ℤ) (existed : List Pod) (diff : ℕ)
      (s : Deleting F)
      → 0 < diff
      → length existed ≤ diff
      → scale_down cl sorter env now existed diff s ≡ returns (stuck (with_channel s))
  unfolding scale_down get_pods_to_delete delete_pods
  scale_down-stuck cl sorter env now existed diff s h k =
      let low : ltb diff (length existed) ≡ false = ground arith in
      let some_missing : (0 == diff) ≡ false = ground arith in simp (low, some_missing)
