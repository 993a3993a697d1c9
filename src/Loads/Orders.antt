-- ===== src/Loads/Orders.antt =====
-- Requests that are answered in any order, each answer with one write and no further request.
use mathlib.Core.Path.{subst}
use mathlib.Core.List.{append_assoc, append-nil}
use makoon.Prelude.{
  ℕ, zero, suc, ◌<◌, ◌≡◌, ◌⊎◌, refl, sym, ap, arith, List, [], ◌∷◌, ◌++◌, length, Any, inl, inr,
}
use makoon.World.{World}
use makoon.Async.{Task, end, get, put, call, spawn}
use makoon.Async.Run.{Server}
use makoon.Async.Pool.{System, advance, deliver, deliver_from, answer}

-- The indices at which `n` waiting tasks are answered, one after the other.
abbrev pub IsOrder : ℕ → List ℕ → Type 0
IsOrder zero [] = Unit {0}
IsOrder zero (i ∷ is) = ⊥
IsOrder (suc n) [] = ⊥
IsOrder (suc n) (i ∷ is) = (i < suc n) × IsOrder n is

module _ {S : Type 0} (serve : Server S) where
  abbrev pub deliver_all : List ℕ → System S → System S
  deliver_all [] x = x
  deliver_all (i ∷ is) x = deliver_all is (deliver serve i x)

  -- A task that writes `f` when it is answered, whatever the state of the server, and then ends.
  abbrev pub Loads : (World → World) → Task → Type 0
  Loads f (call r k) = (w : World) (s : S) → advance (k (serve r s).0) w ≡ (f w, [])
  Loads f _ = ⊥

  module _ {C : Type 0} (answer_of : C → World → World) where
    abbrev pub AreLoads : List C → List Task → Type 0
    AreLoads [] [] = Unit {0}
    AreLoads (c ∷ cs) (t ∷ ts) = Loads (answer_of c) t × AreLoads cs ts
    AreLoads _ _ = ⊥

    AreLoads-append :
        (bs cs : List C) (ts us : List Task)
        → AreLoads bs ts
        → AreLoads cs us
        → AreLoads (bs ++ cs) (ts ++ us)
    AreLoads-append [] cs [] us h k = k
    AreLoads-append [] cs (t ∷ ts) us h k = absurd h
    AreLoads-append (b ∷ bs) cs [] us h k = absurd h
    AreLoads-append (b ∷ bs) cs (t ∷ ts) us (h, hs) k = (h, AreLoads-append bs cs ts us hs k)

    same_length : {m n : ℕ} → suc m ≡ suc n → m ≡ n
    same_length h = omega arith

    -- One of the answers `cs` has come, and `bs` and the rest of `cs` are waited for.
    abbrev Went : List C → List C → World → System S → Type 0
    Went bs cs w y =
        (c : C) × (rest : List C) × (y.world ≡ answer_of c w)
        × AreLoads (bs ++ rest) y.waiting
        × (length cs ≡ suc (length rest))
        × ((d : C) → Any (λ e. e ≡ d) cs → (c ≡ d) ⊎ Any (λ e. e ≡ d) rest)

    answer-Went :
        (t : Task) (before behind : List Task) (bs cs : List C) (c : C) (x : System S)
        → Loads (answer_of c) t
        → AreLoads bs before
        → AreLoads cs behind
        → Went bs (c ∷ cs) x.world (answer serve t before behind x)
    answer-Went (call r k) before behind bs cs c x load b h =
        rw (load x.world x.server, append-nil before)
          (c, cs, refl, AreLoads-append bs cs before behind b h, refl, λ d here. here)
    answer-Went end before behind bs cs c x load b h = absurd load
    answer-Went (get f) before behind bs cs c x load b h = absurd load
    answer-Went (put w t) before behind bs cs c x load b h = absurd load
    answer-Went (spawn t u) before behind bs cs c x load b h = absurd load

    deliver_from-Went :
        (i : ℕ) (before behind : List Task) (bs cs : List C) (x : System S)
        → AreLoads bs before
        → AreLoads cs behind
        → i < length cs
        → Went bs cs x.world (deliver_from serve i before behind x)
    deliver_from-Went i before [] bs [] x b h few = absurd (omega arith)
    deliver_from-Went i before [] bs (c ∷ cs) x b h few = absurd h
    deliver_from-Went i before (t ∷ behind) bs [] x b h few = absurd h
    deliver_from-Went zero before (t ∷ behind) bs (c ∷ cs) x b (load, h) few =
        answer-Went t before behind bs cs c x load b h
    deliver_from-Went (suc i) before (t ∷ behind) bs (c ∷ cs) x b (load, h) few =
        let (a, rest, write, loads, count, left) =
          deliver_from-Went i (before ++ t ∷ []) behind (bs ++ c ∷ []) cs x
            (AreLoads-append bs (c ∷ []) before (t ∷ []) b (load, tt)) h (omega arith) in
        (
          a,
          c ∷ rest,
          write,
          rw (sym (append_assoc bs (c ∷ []) rest)) loads,
          ap suc count,
          λ d here. elim here [
            | inl e ↦ inr (inl e)
            | inr e ↦ elim (left d e) [ inl e' ↦ inl e' | inr e' ↦ inr (inr e') ]
          ],
        )

    no_task : (ts : List Task) → AreLoads [] ts → ts ≡ []
    no_task [] h = refl
    no_task (t ∷ ts) h = absurd h

    module _ (P : World → Type 0) (Offered : C → World → Type 0)
        (stays : (c : C) (w : World) → P w → P (answer_of c w))
        (sets : (c : C) (w : World) → P w → Offered c (answer_of c w))
        (keeps : (c d : C) (w : World) → P w → Offered d w → Offered d (answer_of c w)) where
      -- In whatever order the answers come, in the end nothing is waited for and each of them is there.
      pub deliver_all-Offered :
          (order : List ℕ) (cs : List C) (x : System S)
          → P x.world
          → AreLoads cs x.waiting
          → ((d : C) → Offered d x.world ⊎ Any (λ e. e ≡ d) cs)
          → IsOrder (length cs) order
          → ((deliver_all order x).waiting ≡ []) × ((d : C) → Offered d (deliver_all order x).world)
      deliver_all-Offered [] [] x p loads h o =
          (no_task x.waiting loads, λ d. elim (h d) [ inl e ↦ e | inr e ↦ absurd e ])
      deliver_all-Offered (i ∷ is) [] x p loads h o = absurd o
      deliver_all-Offered [] (c ∷ cs) x p loads h o = absurd o
      deliver_all-Offered (i ∷ is) (c ∷ cs) x p loads h (few, o) =
          let (a, rest, write, loads', count, left) =
            deliver_from-Went i [] x.waiting [] (c ∷ cs) x tt loads few in
          deliver_all-Offered is rest (deliver serve i x) (subst P (sym write) (stays a x.world p))
            loads'
            (λ d. elim (h d) [
              | inl e ↦ inl (subst (Offered d) (sym write) (keeps a d x.world p e))
              | inr e ↦ elim (left d e) [
                | inl same ↦ inl (
                    subst (Offered d) (sym write)
                      (subst (λ z. Offered z (answer_of a x.world)) same (sets a x.world p)))
                | inr waits ↦ inr waits
              ]
            ])
            (subst (λ n. IsOrder n is) (same_length count) o)
