-- ===== src/Collection/SafeMap.antt =====
-- core/collection/safemap.go: a map in two parts, whose parts are joined and made anew when enough
-- keys have been deleted. The counts of deletions are naturals; no run reaches 2 ^ 63 of them.
pub mod Parts
pub mod Refine
mod Tests
use go_zero.Prelude.{
  ℕ, ◌+◌, ◌^◌, ltb, leb, ◌&&◌, Bool, true, false, if◌then◌else◌, List, [], ◌∷◌, ◌++◌, Option, none,
  some, length, lookup, insert, erase, copy_all, first_of,
}

abbrev pub copy_threshold : ℕ
copy_threshold = 1000

abbrev pub max_deletion : ℕ
max_deletion = 10000

-- `SafeMap`
pub record SafeMap {ℓ} (K V : Type ℓ) : Type ℓ where
  pub deletion_old : ℕ
  pub deletion_new : ℕ
  pub dirty_old : List (K × V)
  pub dirty_new : List (K × V)

module _ {ℓ} {K V : Type ℓ} (same : K → K → Bool) where
  -- `NewSafeMap`
  unfoldable pub new_safe_map : SafeMap K V
  new_safe_map = record { deletion_old = 0; deletion_new = 0; dirty_old = []; dirty_new = [] }

  -- `Get`
  unfoldable pub get : SafeMap K V → K → Option V
  get m key = first_of (lookup same key m.dirty_old) (lookup same key m.dirty_new)

  -- `Size`
  unfoldable pub size_of : SafeMap K V → ℕ
  size_of m = length m.dirty_old + length m.dirty_new

  -- `Range`: the entries that `f` is called on, in order.
  unfoldable pub visit_until : (K → V → Bool) → List (K × V) → List (K × V)
  visit_until f [] = []
  visit_until f ((k, v) ∷ m) =
      let rest = visit_until f m in if f k v then (k, v) ∷ rest else (k, v) ∷ []

  unfoldable pub range : SafeMap K V → (K → V → Bool) → List (K × V)
  range m f = visit_until f (m.dirty_old ++ m.dirty_new)

  -- `Set`: an entry of the other part is deleted.
  unfoldable pub unset_new : SafeMap K V → K → SafeMap K V
  unset_new m key = elim (lookup same key m.dirty_new) [
    | none ↦ m
    | some _ ↦ record m {
      dirty_new = erase same key m.dirty_new;
      deletion_new = m.deletion_new + 1;
    }
  ]

  unfoldable pub unset_old : SafeMap K V → K → SafeMap K V
  unset_old m key = elim (lookup same key m.dirty_old) [
    | none ↦ m
    | some _ ↦ record m {
      dirty_old = erase same key m.dirty_old;
      deletion_old = m.deletion_old + 1;
    }
  ]

  unfoldable pub set_value : SafeMap K V → K → V → SafeMap K V
  set_value m key value =
      if leb m.deletion_old max_deletion
      then (let m' = unset_new m key in
          record m' { dirty_old = insert same key value m'.dirty_old })
      else (let m' = unset_old m key in
          record m' { dirty_new = insert same key value m'.dirty_new })

  -- `Del`: first the entry is deleted from the part that has it.
  unfoldable pub delete_key : SafeMap K V → K → SafeMap K V
  unfolding unset_new unset_old
  delete_key m key = elim (lookup same key m.dirty_old) [
    | some _ ↦ record m {
      dirty_old = erase same key m.dirty_old;
      deletion_old = m.deletion_old + 1;
    }
    | none ↦ unset_new m key
  ]

  -- Then the old part may be copied into the new one, which takes its place,
  unfoldable pub compact_old : SafeMap K V → SafeMap K V
  compact_old m =
      if leb max_deletion m.deletion_old && ltb (length m.dirty_old) copy_threshold
      then record {
        deletion_old = m.deletion_new;
        deletion_new = 0;
        dirty_old = copy_all same m.dirty_old m.dirty_new;
        dirty_new = [];
      }
      else m

  -- and the new part may be copied into the old one.
  unfoldable pub compact_new : SafeMap K V → SafeMap K V
  compact_new m =
      if leb max_deletion m.deletion_new && ltb (length m.dirty_new) copy_threshold
      then record m {
        deletion_new = 0;
        dirty_old = copy_all same m.dirty_new m.dirty_old;
        dirty_new = [];
      }
      else m

  unfoldable pub del : SafeMap K V → K → SafeMap K V
  del m key = compact_new (compact_old (delete_key m key))
