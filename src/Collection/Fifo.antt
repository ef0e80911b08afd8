-- ===== src/Collection/Fifo.antt =====
-- core/collection/fifo.go: a queue over a slice that grows when it is full.
pub mod Refine
use mathlib.Core.Option
use go_zero.Prelude.{
  ℕ, suc, ◌+◌, ◌-◌, ◌%◌, ltb, ◌==◌, ◌&&◌, if◌then◌else◌, Bool, List, [], ◌∷◌, ◌++◌, Option, none,
  some, length, get_or, set, take, drop, replicate,
}

-- `Queue`; the lock is not modelled, since each method holds it from start to end.
pub record Queue {ℓ} (A : Type ℓ) : Type ℓ where
  pub elements : List A
  pub size : ℕ
  pub head : ℕ
  pub tail : ℕ
  pub count : ℕ

-- A call of a method, and what it returns.
pub data Call {ℓ} (A : Type ℓ) : Type ℓ where
  call_empty : Call A
  call_put : A → Call A
  call_take : Call A

pub data Reply {ℓ} (A : Type ℓ) : Type ℓ where
  is_empty : Bool → Reply A
  done : Reply A
  taken : Option A → Reply A

-- `nil` is Go's nil, the value of a slot that was never written.
module _ {ℓ} {A : Type ℓ} (nil : A) where
  unfoldable pub new_queue : ℕ → Queue A
  new_queue size = record {
    elements = replicate size nil;
    size = size;
    head = 0;
    tail = 0;
    count = 0;
  }

  unfoldable pub empty : Queue A → Bool
  empty q = q.count == 0

  -- The two `copy` calls of `Put`, into a slice that is longer by `size`.
  unfoldable pub grow : Queue A → Queue A
  grow q = record q {
    elements = (drop q.head q.elements ++ take q.head q.elements) ++ replicate q.size nil;
    head = 0;
    tail = length q.elements;
  }

  -- The end of `Put`; `none` is the panic of an index out of range.
  unfoldable pub store : Queue A → A → Option (Queue A)
  store q element =
      if ltb q.tail (length q.elements)
      then some (record q {
        elements = set q.elements q.tail element;
        tail = (q.tail + 1) % length q.elements;
        count = q.count + 1;
      })
      else none

  unfoldable pub put : Queue A → A → Option (Queue A)
  unfolding grow store
  put q element =
      if (q.head == q.tail) && ltb 0 q.count then store (grow q) element else store q element

  -- `Take`: what it returns, `none` for `nil, false`, and the new state.
  unfoldable pub take_first : Queue A → Option A × Queue A
  take_first q = if q.count == 0 then (none, q) else (
    some (get_or q.elements q.head nil),
    record q { head = (q.head + 1) % length q.elements; count = q.count - 1 },
  )

  -- Calls in order; `none` if one of them panics.
  unfoldable pub run : Queue A → List (Call A) → Option (List (Reply A))
  run q [] = some []
  run q (call_empty ∷ calls) = Option.map (◌∷◌ (is_empty (empty q))) (run q calls)
  run q (call_put v ∷ calls) = elim (put q v) [
    | none ↦ none
    | some q' ↦ Option.map (◌∷◌ done) (run q' calls)
  ]
  run q (call_take ∷ calls) =
      let (v, q') = take_first q in Option.map (◌∷◌ (taken v)) (run q' calls)
