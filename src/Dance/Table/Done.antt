-- ===== src/Dance/Table/Done.antt =====
-- The links that the constructor of `Dance` in Lab1/sudoku_dancing_links.cpp leaves.
use cloud_computing.Prelude.{ℕ, ◌+◌, ◌*◌, ◌<◌, ◌≡◌, subst, refl, some, List, [], All, ==_iff, arith}
use cloud_computing.Dance.{Dance, root}
use cloud_computing.Dance.Build.{
  dance, new_column, empty_dance, for_below, cell_column, digit_columns, cell_rows, marks_of, lone,
}
use cloud_computing.Dance.Rows.{Chain}
use cloud_computing.Dance.Built.{dance-IsWellFormed, empty-IsWellFormed}
use cloud_computing.Dance.WellFormed.{IsWellFormed, lone-IsWellFormed}
use cloud_computing.Dance.Search.Members.{All-mem, Distinct}
use cloud_computing.Dance.Search.Skip.{Mutual}
use cloud_computing.Dance.Search.Ring.{IsRing}
use cloud_computing.Dance.Search.Linked.{IsLinkedMatrix}
use cloud_computing.Dance.Table.Insert.{Chain-back}
use cloud_computing.Dance.Table.Inverse.{none_ends, bind_then, for_below-Keeps}
use cloud_computing.Dance.Table.Heads.{
  heads, mem-heads, Distinct-heads, AreHeads, HasHeads, cell_column-HasHeads,
  digit_columns-HasHeads,
}
use cloud_computing.Dance.Table.Nodes.{nodes_in, mem-nodes_in, Distinct-nodes_in, AreNodes}
use cloud_computing.Dance.Table.Fours.{IsUnit}
use cloud_computing.Dance.Table.Whole.{AreUnits, HasUnits, cell_rows-HasUnits}

-- A chain of different nodes that are linked in both directions is a ring.
Chain-IsRing :
    (f g : ℕ → ℕ) (end : ℕ) (xs : List ℕ)
    → Mutual f g end
    → All (Mutual f g) xs
    → Distinct xs
    → Chain f end (f end) xs
    → IsRing f g end xs
Chain-IsRing f g end xs he all dist path = record {
  forth = path;
  back = Chain-back f g end (f end) xs [] all path he.0;
  at_end = he;
  at_nodes = all;
  distinct = dist;
}

module _ (inout : ℕ → ℕ) where
  root-AreHeads : AreHeads 0 (lone 0 0 0 (empty_dance inout))
  unfolding lone empty_dance
  root-AreHeads = record {
    well_formed =
        lone-IsWellFormed 0 0 (empty_dance inout) (omega arith) (empty-IsWellFormed inout);
    count = omega arith;
    linked = refl;
    alone = λ c lt. ground arith;
    fresh = refl;
    titled = λ n c e. absurd (none_ends c e);
  }

AreHeads-AreNodes : (m : ℕ) (d : Dance) → AreHeads m d → AreNodes m 0 d
AreHeads-AreNodes m d h = record {
  count = omega (arith, h.count);
  along = h.well_formed.along;
  heads_linked = h.linked;
  linked = λ c lt. (h.alone c lt).0;
  under = λ x le lt. absurd (omega arith);
  titled = h.titled;
  fresh = h.fresh;
}

pub AreNodes-IsLinkedMatrix :
    (m k : ℕ) (d : Dance)
    → IsWellFormed d
    → AreNodes m k d
    → IsLinkedMatrix (m + 1) d.col (heads m) (λ c. nodes_in d.col c (m + 1) k) d
AreNodes-IsLinkedMatrix m k d well h = record {
  has_root = omega arith;
  headers =
      Chain-IsRing d.right d.left root (heads m) (across root (omega arith))
        (All-mem (Mutual d.right d.left) (heads m)
          (λ y e. across y (ground (arith, mem-heads y m, e))))
        (Distinct-heads m) h.heads_linked;
  column = λ c at.
      Chain-IsRing d.down d.up c (nodes_in d.col c (m + 1) k)
        (along c (ground (arith, mem-heads c m, at)))
        (All-mem (Mutual d.down d.up) (nodes_in d.col c (m + 1) k)
          (λ y e. along y (ground (arith, mem-nodes_in d.col c (m + 1) k y, e))))
        (Distinct-nodes_in d.col c (m + 1) k) (h.linked c (ground (arith, mem-heads c m, at)));
  low = λ c at. ground (arith, mem-heads c m, at);
  high = λ c x at e. ground (arith, mem-nodes_in d.col c (m + 1) k x, e);
  cols = refl;
  under = λ c x at e. ground (arith, mem-nodes_in d.col c (m + 1) k x, e, ==_iff (d.col x) c);
}
  where
    across : (y : ℕ) → y < m + 1 + k → Mutual d.right d.left y
    across y lt = (
      well.across.first_second y (omega (arith, h.count)),
      well.across.second_first y (omega (arith, h.count)),
    )

    along : (y : ℕ) → y < m + 1 + k → Mutual d.down d.up y
    along y lt = (
      h.along.first_second y (omega (arith, h.count)),
      h.along.second_first y (omega (arith, h.count)),
    )

AreHeads-AreUnits : (m : ℕ) (d : Dance) → AreHeads m d → AreUnits m 0 0 d
AreHeads-AreUnits m d h = record {
  nodes = AreHeads-AreNodes m d h;
  whole = omega arith;
  units = λ j lt. absurd (omega arith);
}

pub dance-AreUnits : (inout : ℕ → ℕ) (d : Dance) → dance inout ≡ some d → (m : ℕ) × HasUnits m d
unfolding dance new_column empty_dance
dance-AreUnits inout d ran =
    let marks = marks_of 81 inout in
    bind_then _ (for_below 81 (cell_rows inout marks)) d ran (λ f headed filled.
      bind_then (for_below 81 (cell_column inout) (lone 0 0 0 (empty_dance inout)))
        (for_below 9 (λ i. for_below 9 (digit_columns marks i))) f headed
        (λ g cells digits.
          let first =
            for_below-Keeps HasHeads 81 (cell_column inout) (λ i lt. cell_column-HasHeads inout i)
              (lone 0 0 0 (empty_dance inout)) g cells (0, root-AreHeads inout) in
          let (m, h) =
            for_below-Keeps HasHeads 9 (λ i. for_below 9 (digit_columns marks i))
              (λ i lt.
                for_below-Keeps HasHeads 9 (digit_columns marks i)
                  (λ k lk. digit_columns-HasHeads marks i k))
              g f digits first in
          (
            m,
            for_below-Keeps (HasUnits m) 81 (cell_rows inout marks)
                (λ i lt. cell_rows-HasUnits m i inout marks lt) f d filled
                (0, 0, AreHeads-AreUnits m f h),
          )))

-- The links that the constructor builds for any board stand for a matrix: for some `m` and `q`, the
-- ring of the root has the headers 1 to `m`, and the ring of each header has, of the `4 * q` nodes from
-- `m + 1` on, exactly those whose column it is, in order; all these rings are linked in both
-- directions. Every four nodes from `m + 1` on are a row: a ring, named by a cell and by the same digit
-- in its row, its column and its box, each node in the column with its name.
pub dance-IsLinkedMatrix :
    (inout : ℕ → ℕ)
    → (d : Dance) × (dance inout ≡ some d)
      × ((m : ℕ) × (q : ℕ) × (d.cur_node ≡ m + 1 + 4 * q)
          × IsLinkedMatrix (m + 1) d.col (heads m) (λ c. nodes_in d.col c (m + 1) (4 * q)) d
          × ((j : ℕ) → j < q → IsUnit (m + 1 + 4 * j) d))
dance-IsLinkedMatrix inout =
    let (d, ran, well) = dance-IsWellFormed inout in
    let (m, (q, k, h)) = dance-AreUnits inout d ran in
    let nodes : AreNodes m (4 * q) d = subst (λ z. AreNodes m z d) h.whole h.nodes in
    (d, ran, (m, q, nodes.count, AreNodes-IsLinkedMatrix m (4 * q) d well nodes, h.units))
