-- ===== src/Creator/Distinct.antt =====
-- Lists of nodes without two of the same id, and what can be said of all their nodes at once.
use makoon.Prelude.{
  ◌≡◌, ◌≢◌, ◌⊎◌, sym, refl, ap, arith, List, [], ◌∷◌, All, Any, All-append, inl, inr,
}
use makoon.Prelude.Int.{ℤ, pos_part, neg_part, ◌<ℤ◌}
use makoon.Js.Array.{push}
use makoon.Model.{ClusterNode, ClusterNodeType, master, worker}
use makoon.Model.Names.{node_type_eq}

-- No two nodes have the same id.
abbrev pub IsDistinct : List ClusterNode → Type 0
IsDistinct [] = Unit {0}
IsDistinct (x ∷ xs) = All (λ e. e.vm_id ≢ x.vm_id) xs × IsDistinct xs

pub push-IsDistinct :
    (xs : List ClusterNode) (x : ClusterNode)
    → IsDistinct xs
    → All (λ e. e.vm_id ≢ x.vm_id) xs
    → IsDistinct (push xs x)
push-IsDistinct [] x h k = (tt, tt)
push-IsDistinct (y ∷ ys) x (h, hs) (k, ks) =
    (All-append _ ys (x ∷ []) h (λ e. k (sym e), tt), push-IsDistinct ys x hs ks)

pub push-Any :
    (P : ClusterNode → Type 0) (xs : List ClusterNode) (x : ClusterNode)
    → Any P xs
    → Any P (push xs x)
push-Any P [] x h = absurd h
push-Any P (y ∷ ys) x (inl p) = inl p
push-Any P (y ∷ ys) x (inr p) = inr (push-Any P ys x p)

pub node_type_cases : (t : ClusterNodeType) → (t ≡ master) ⊎ (t ≡ worker)
node_type_cases master = inl refl
node_type_cases worker = inr refl

pub All-both :
    (P Q : ClusterNode → Type 0) (xs : List ClusterNode)
    → All P xs
    → All Q xs
    → All (λ e. P e × Q e) xs
All-both P Q [] _ _ = tt
All-both P Q (x ∷ xs) (p, ps) (q, qs) = ((p, q), All-both P Q xs ps qs)

pub lt_ne : (x y : ℤ) → x <ℤ y → x ≢ y
lt_ne x y h e = let p = ap pos_part e in let n = ap neg_part e in omega arith

pub gt_ne : (x y : ℤ) → y <ℤ x → x ≢ y
gt_ne x y h e = lt_ne y x h (sym e)
