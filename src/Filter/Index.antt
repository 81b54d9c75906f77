-- ===== src/Filter/Index.antt =====
-- `KeyIndex` and `partition_point` of crates/filter/src/engine.rs: sorted byte keys over one arena,
-- each with the id of a rule.
pub mod Order
pub mod Sort
pub mod Insertion
pub mod Partition
pub mod Lookup
pub mod Insert
pub mod Rebuild
pub mod Finish
use sumidero.Filter.Index.Order.{bytes_lt}
use sumidero.Filter.Index.Sort.{SortUnstable}
use sumidero.Prelude.{
  ℕ, zero, suc, ◌+◌, ◌-◌, ◌/◌, ◌^◌, Bool, true, false, ◌&&◌, Option, none, some, List, [], ◌∷◌,
  ◌++◌, Bytes, length, take, drop, get_or, ltb, if◌then◌else◌, bytes_eq, ◌>>=◌, ◌>>◌, expect,
}

-- The number of values of a `u32`.
abbrev pub u32_size : ℕ
u32_size = 2 ^ 32

pub record KeyIndex : Type 0 where
  pub arena : Bytes
  pub offs : List ℕ
  pub lens : List ℕ
  pub rules : List ℕ

abbrev pub empty : KeyIndex
empty = record { arena = []; offs = []; lens = []; rules = [] }

abbrev pub slice : ℕ → ℕ → Bytes → Bytes
slice off len s = take len (drop off s)

unfoldable pub insert : KeyIndex → Bytes → ℕ → Option KeyIndex
insert ix key rule = do
  let off = length ix.arena
  expect (ltb off u32_size)
  expect (ltb (length key) 256)
  some (record {
    arena = ix.arena ++ key;
    offs = ix.offs ++ off ∷ [];
    lens = ix.lens ++ length key ∷ [];
    rules = ix.rules ++ rule ∷ [];
  })

unfoldable pub key : KeyIndex → ℕ → Bytes
key ix i = slice (get_or ix.offs i 0) (get_or ix.lens i 0) ix.arena

abbrev pub rule_at : KeyIndex → ℕ → ℕ
rule_at ix i = get_or ix.rules i 0

-- The loop of `partition_point`; `hi - lo` falls in each round.
unfoldable pub partition_loop : ℕ → ℕ → ℕ → (ℕ → Bool) → ℕ
partition_loop zero lo hi pred = lo
partition_loop (suc f) lo hi pred =
    let mid = lo + (hi - lo) / 2 in
    let right = partition_loop f (mid + 1) hi pred in
    let left = partition_loop f lo mid pred in
    if ltb lo hi then (if pred mid then right else left) else lo

unfoldable pub partition_point : ℕ → (ℕ → Bool) → ℕ
unfolding partition_loop
partition_point len pred = partition_loop len 0 len pred

-- `(i..i + n).take_while(key == needle).map(rule)`
unfoldable pub take_equal : KeyIndex → Bytes → ℕ → ℕ → List ℕ
unfolding key
take_equal ix needle zero i = []
take_equal ix needle (suc n) i =
    if bytes_eq (key ix i) needle then rule_at ix i ∷ take_equal ix needle n (i + 1) else []

unfoldable pub equal_range : KeyIndex → Bytes → List ℕ
unfolding take_equal partition_point
equal_range ix needle =
    let n = length ix.rules in
    let lo = partition_point n (λ i. bytes_lt (key ix i) needle) in take_equal ix needle (n - lo) lo

-- `i..i + n`
abbrev pub range_from : ℕ → ℕ → List ℕ
range_from i zero = []
range_from i (suc n) = i ∷ range_from (i + 1) n

-- The offset of the key of entry `i`: that of the previous distinct key where they are equal,
-- otherwise the end of the new arena, which takes the key. Also the last distinct key so far.
unfoldable pub place :
    KeyIndex → List ℕ → ℕ → ℕ → Bytes → Option (ℕ × ℕ) → Option (ℕ × Bytes × Option (ℕ × ℕ))
place ix order pos i arena prev =
    let fresh = do
      let off = length arena
      expect (ltb off u32_size)
      some (off, arena ++ key ix i, some (pos, off))
    in elim prev [
      | none ↦ fresh
      | some (p, off) ↦
          if bytes_eq (key ix (get_or order p 0)) (key ix i)
          then some (off, arena, some (p, off))
          else fresh
    ]

-- The loop over the sorted order: what is still to be pushed, and the arena at the end. The calls
-- of `relocate` are the rules with their offsets.
unfoldable pub rebuild : KeyIndex → List ℕ → ℕ → List ℕ → Bytes → Option (ℕ × ℕ) → Option KeyIndex
unfolding place key
rebuild ix order pos [] arena prev =
    some (record { arena = arena; offs = []; lens = []; rules = [] })
rebuild ix order pos (i ∷ rest) arena prev = do
  (new_off, arena', prev') ← place ix order pos i arena prev
  tail ← rebuild ix order (pos + 1) rest arena' prev'
  some (record {
    arena = tail.arena;
    offs = new_off ∷ tail.offs;
    lens = get_or ix.lens i 0 ∷ tail.lens;
    rules = rule_at ix i ∷ tail.rules;
  })

module _ (std : SortUnstable) where
  unfoldable pub sorted_order : KeyIndex → List ℕ
  unfolding key
  sorted_order ix =
      std.sort_unstable_by (λ a b. bytes_lt (key ix a) (key ix b)) (range_from 0 (length ix.rules))

  unfoldable pub finish : KeyIndex → Option KeyIndex
  unfolding sorted_order rebuild
  finish ix = do
    expect (ltb (length ix.rules) u32_size)
    let order = sorted_order ix
    rebuild ix order 0 order [] none
