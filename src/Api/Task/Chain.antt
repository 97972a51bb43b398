-- ===== src/Api/Task/Chain.antt =====
-- The cells that a handle reaches, its own first, and what a write leaves alone.
use mona_agent_core.Prelude.{ℕ, ◌≡◌, ap, ◌∙◌, ◌≢◌, List, [], ◌∷◌, arith, ℕ_discrete}
use mathlib.Core.List.{
  Mem, Mem-prop, not-mem-nil, Nodup, Nodup-cons, mem-cons, mem-cons_self, mem-cons_of_mem,
}
use mathlib.Core.Logic.Or
use mona_agent_core.Api.Task.{TaskControl, root, child, TaskInner, Heap, write, Counters}

abbrev pub cells : TaskControl → List ℕ
cells (root i) = i.cell ∷ []
cells (child i parent) = i.cell ∷ cells parent

-- The root of the tree that a handle belongs to.
abbrev pub root_of : TaskControl → TaskInner
root_of (root i) = i
root_of (child i parent) = root_of parent

pub write-same : (h : Heap) (c : ℕ) (v : Counters) → write h c v c ≡ v
unfolding write
write-same h c v = ground arith

pub write-other : (h : Heap) (c d : ℕ) (v : Counters) → d ≢ c → write h c v d ≡ h d
unfolding write
write-other h c d v n = ground arith

pub mem-root_of : (t : TaskControl) → Mem (root_of t).cell (cells t)
mem-root_of (root i) = mem-cons_self
mem-root_of (child i parent) = mem-cons_of_mem i.cell (mem-root_of parent)

mem-tail : (c x : ℕ) (xs : List ℕ) → c ≢ x → Mem c (x ∷ xs) → Mem c xs
mem-tail c x xs n m = Or.elim (Mem-prop) (mem-cons.0 m) (λ e. absurd (n e)) (λ k. k)

-- A heap in which `f` was applied to the cells of a handle, and to no other.
pub record Applied (f : Counters → Counters) (t : TaskControl) (h h' : Heap) : Type 0 where
  pub here : (c : ℕ) → Mem c (cells t) → h' c ≡ f (h c)
  pub elsewhere : (c : ℕ) → ¬ Mem c (cells t) → h' c ≡ h c

module _ (f : Counters → Counters) where
  pub Applied-root :
      (i : TaskInner) (h : Heap) → Applied f (root i) h (write h i.cell (f (h i.cell)))
  Applied-root i h = record {
    here = λ c m. elim (ℕ_discrete c i.cell) [
      | yes e ↦ rw e (write-same h i.cell _)
      | no n ↦ absurd (not-mem-nil (mem-tail c i.cell [] n m))
    ];
    elsewhere = λ c n. write-other h i.cell c _ (λ e. n (rw e mem-cons_self));
  }

  -- The parents first, then the cell of the child.
  pub Applied-child :
      (i : TaskInner) (parent : TaskControl) (h h' : Heap)
      → Nodup (cells (child i parent))
      → Applied f parent h h'
      → Applied f (child i parent) h (write h' i.cell (f (h' i.cell)))
  Applied-child i parent h h' distinct a = record {
    here = λ c m. elim (ℕ_discrete c i.cell) [
      | yes e ↦ rw e (write-same h' i.cell _ ∙ ap f (a.elsewhere i.cell (Nodup-cons.0 distinct).0))
      | no n ↦ write-other h' i.cell c _ n ∙ a.here c (mem-tail c i.cell (cells parent) n m)
    ];
    elsewhere = λ c n.
        write-other h' i.cell c _ (λ e. n (rw e mem-cons_self))
        ∙ a.elsewhere c (λ m. n (mem-cons_of_mem i.cell m));
  }

  -- The cell of the child first, then the parents.
  pub Applied-parent :
      (i : TaskInner) (parent : TaskControl) (h h' : Heap)
      → Nodup (cells (child i parent))
      → Applied f parent (write h i.cell (f (h i.cell))) h'
      → Applied f (child i parent) h h'
  Applied-parent i parent h h' distinct a = record {
    here = λ c m. elim (ℕ_discrete c i.cell) [
      | yes e ↦ rw e (a.elsewhere i.cell (Nodup-cons.0 distinct).0 ∙ write-same h i.cell _)
      | no n ↦ a.here c (mem-tail c i.cell (cells parent) n m) ∙ ap f (write-other h i.cell c _ n)
    ];
    elsewhere = λ c n.
        a.elsewhere c (λ m. n (mem-cons_of_mem i.cell m))
        ∙ write-other h i.cell c _ (λ e. n (rw e mem-cons_self));
  }
