-- ===== src/Kube/Runs.antt =====
-- Runs of loops where the cluster accepts every write.
use software_distribution_pl.Prelude.{◌≡◌, refl, List, [], ◌∷◌, none, arith}
use software_distribution_pl.Kube.{Call, Trace, Cluster, ok, M, each}

-- Every write is accepted.
abbrev pub Accepts : Cluster → Type 0
Accepts k = (tr : Trace) (c : Call) → k.write tr c ≡ none

-- The trace of a loop whose rounds make one call each.
abbrev pub calls {ℓ} : {A : Type ℓ} → (A → Call) → List A → Trace → Trace
calls g [] tr = tr
calls g (x ∷ xs) tr = calls g xs (g x ∷ tr)

pub each-ok :
    {A : Type 0} (f : A → M (Unit {0})) (g : A → Call)
    → ((a : A) (tr : Trace) → f a tr ≡ (g a ∷ tr, ok tt))
    → (xs : List A) (tr : Trace) → each f xs tr ≡ (calls g xs tr, ok tt)
unfolding each
each-ok f g h [] tr = refl
each-ok f g h (x ∷ xs) tr = ground (arith, h x tr, each-ok f g h xs (g x ∷ tr))
