-- ===== src/Stringx.antt =====
-- core/stringx/strings.go. A string of valid UTF-8 is the list of its runes; the strings that are
-- only compared are of any type with a comparison `same`.
pub mod Compact
pub mod Kept
pub mod Cut
pub mod Joined
pub mod Reversed
mod Tests
use go_zero.Prelude.{
  ℕ, zero, suc, ◌+◌, ◌-◌, ltb, leb, if◌then◌else◌, Bool, true, false, not, ◌||◌, List, [], ◌∷◌,
  ◌++◌, length, get_or, set, take, drop, ◌==◌,
}

-- `int`, where a sign matters.
pub data ℤ : Type 0 where
  pos negsuc : ℕ → ℤ

abbrev pub Runes : Type 0
Runes = List ℕ

module _ {ℓ} {A : Type ℓ} (nothing : A) where
  -- The loop of `Filter`, `k` rounds left: `buf` is `chars`, `i` the round.
  unfoldable pub filter_from : (A → Bool) → List A → ℕ → ℕ → ℕ → List A × ℕ
  filter_from dropped buf n i zero = (buf, n)
  filter_from dropped buf n i (suc k) =
      let x = get_or buf i nothing in
      let buf' = if ltb n i then set buf n x else buf in
      filter_from dropped buf' (if dropped x then n else n + 1) (i + 1) k

  -- `Filter`
  unfoldable pub filter_chars : List A → (A → Bool) → List A
  filter_chars s dropped = let (buf, n) = filter_from dropped s 0 0 (length s) in take n buf

  module _ (same : A → A → Bool) where
    -- `Contains`
    unfoldable pub contains : List A → A → Bool
    contains [] str = false
    contains (each ∷ list) str = if same each str then true else contains list str

    -- The inner loop of `Remove`, `k` rounds left, and the outer one. An index out of range cannot
    -- occur, as `n` is at most `i`.
    unfoldable pub remove_from : A → List A → ℕ → ℕ → ℕ → List A × ℕ
    remove_from str out n i zero = (out, n)
    remove_from str out n i (suc k) =
        let v = get_or out i nothing in
        if same v str
        then remove_from str out n (i + 1) k
        else remove_from str (set out n v) (n + 1) (i + 1) k

    -- `Remove`
    unfoldable pub remove : List A → List A → List A
    remove out [] = out
    remove out (str ∷ strs) =
        let (buf, n) = remove_from str out 0 0 (length out) in remove (take n buf) strs

-- What `Substr` does: it returns a string, or one of the two errors, or the slice expression panics.
pub data Substring : Type 0 where
  substring : Runes → Substring
  invalid_start_position invalid_stop_position slice_out_of_range : Substring

-- `Substr`
unfoldable pub substr : Runes → ℤ → ℤ → Substring
substr str (negsuc _) stop = invalid_start_position
substr str (pos start) stop = if ltb (length str) start then invalid_start_position else elim stop [
  | negsuc _ ↦ invalid_stop_position
  | pos b ↦
      if ltb (length str) b
      then invalid_stop_position
      else (if leb start b
          then substring (take (b - start) (drop start str))
          else slice_out_of_range)
]

-- `FirstN`, `i` runes seen, with the concatenation of `ellipsis`
unfoldable pub first_from : ℕ → ℕ → Runes → Runes → Runes → Runes
first_from i n seen ellipsis [] = seen
first_from i n seen ellipsis (r ∷ rs) =
    if i == n then seen ++ ellipsis else first_from (i + 1) n (seen ++ (r ∷ [])) ellipsis rs

unfoldable pub first_n : Runes → ℕ → Runes → Runes
first_n s n ellipsis = first_from 0 n [] ellipsis s

-- `HasEmpty` and `NotEmpty`
unfoldable pub has_empty : List Runes → Bool
has_empty [] = false
has_empty ([] ∷ args) = true
has_empty ((_ ∷ _) ∷ args) = has_empty args

unfoldable pub not_empty : List Runes → Bool
not_empty args = not (has_empty args)

-- `TakeOne` and `TakeWithPriority`, for the results of the functions
unfoldable pub take_one : Runes → Runes → Runes
take_one [] other = other
take_one (c ∷ valid) other = c ∷ valid

unfoldable pub take_with_priority : List Runes → Runes
take_with_priority [] = []
take_with_priority ([] ∷ vals) = take_with_priority vals
take_with_priority ((c ∷ val) ∷ vals) = c ∷ val

-- `Join`: the count of the bytes, and the loop that fills `buf`
unfoldable pub total_size : List Runes → ℕ
total_size [] = 0
total_size (e ∷ elem) = length e + total_size elem

unfoldable pub join_from : ℕ → Runes → List Runes → Runes
join_from sep buf [] = buf
join_from sep buf ([] ∷ elem) = join_from sep buf elem
join_from sep buf ((c ∷ e) ∷ elem) =
    let buf' = if ltb 0 (length buf) then buf ++ (sep ∷ []) else buf in
    join_from sep (buf' ++ (c ∷ e)) elem

unfoldable pub join : ℕ → List Runes → Runes
join sep elem = if total_size elem == 0 then [] else join_from sep [] elem

-- The loop of `Reverse`, `k` rounds left; `stop` is `to + 1`. The swap reads both runes first.
unfoldable pub reverse_from : Runes → ℕ → ℕ → ℕ → Runes
reverse_from runes start stop zero = runes
reverse_from runes start stop (suc k) = elim (ltb (start + 1) stop) [
  | false ↦ runes
  | true ↦
      reverse_from
        (set (set runes start (get_or runes (stop - 1) 0)) (stop - 1) (get_or runes start 0))
        (start + 1) (stop - 1) k
]

-- `Reverse`: no more rounds than runes are needed.
unfoldable pub reverse_chars : Runes → Runes
reverse_chars s = reverse_from s 0 (length s) (length s)
