-- ===== src/Dance/Table/Heads.antt =====
-- The headers that the constructor of `Dance` in Lab1/sudoku_dancing_links.cpp links to the root.
use cloud_computing.Prelude.{
  ℕ, zero, suc, ◌+◌, ◌<◌, ◌≡◌, ◌≢◌, refl, sym, ap, subst, ◌∙◌, Bool, true, false, ◌&&◌, Option,
  none, some, some_inj, List, [], ◌∷◌, ◌++◌, length, ◌==◌, ==_iff, ltb, ltb_iff, update, update-ne,
  if◌then◌else◌, arith, Bool-cases, inl, inr, ◌⊎◌,
}
use cloud_computing.Dance.{Dance, root, max_nodes}
use cloud_computing.Dance.Build.{
  Marks, get_row_col, get_col_col, get_box_col, is_none, put_left, lone, new_column, append_column,
  missing_column, cell_column, digit_columns,
}
use cloud_computing.Dance.Rows.{Chain}
use cloud_computing.Dance.WellFormed.{IsWellFormed, lone-IsWellFormed, append_column_lem}
use cloud_computing.Dance.Search.Members.{mem, All-mem, mem-append, Distinct, Distinct-append}
use cloud_computing.Dance.Search.Skip.{Mutual}
use cloud_computing.Dance.Search.Choice.{Chain-same}
use cloud_computing.Dance.Table.Insert.{insert-Chain}
use cloud_computing.Dance.Table.Inverse.{Keeps, none_ends, bind_ends}

-- The numbers from 1 to `m`
abbrev pub heads : ℕ → List ℕ
heads zero = []
heads (suc m) = heads m ++ (suc m ∷ [])

pub mem-heads : (x m : ℕ) → mem x (heads m) ≡ (ltb 0 x && ltb x (suc m))
mem-heads x zero = ground arith
mem-heads x (suc m) = ground (arith, mem-append x (heads m) (suc m ∷ []), mem-heads x m)

pub Distinct-heads : (m : ℕ) → Distinct (heads m)
Distinct-heads zero = tt
Distinct-heads (suc m) =
    Distinct-append (heads m) (suc m ∷ []) (Distinct-heads m) (refl, tt)
      (λ z e. ground (arith, mem-heads z m))

pub length-heads : (m : ℕ) → length (heads m) ≡ m
length-heads zero = refl
length-heads (suc m) = omega (arith, length-snoc (heads m) (suc m), length-heads m)
  where
    length-snoc : (xs : List ℕ) (x : ℕ) → length (xs ++ (x ∷ [])) ≡ length xs + 1
    length-snoc [] x = refl
    length-snoc (y ∷ xs) x = omega (arith, length-snoc xs x)

-- `m` headers, and no other node, have been linked.
pub record AreHeads (m : ℕ) (d : Dance) : Type 0 where
  pub well_formed : IsWellFormed d
  pub count : d.cur_node ≡ m + 1
  pub linked : Chain d.right root (d.right root) (heads m)
  pub alone : (c : ℕ) → c < m + 1 → (d.down c ≡ c) × (d.up c ≡ c) × (d.col c ≡ c)
  pub fresh : d.stack ≡ []
  pub titled : (n c : ℕ) → d.columns n ≡ some c → (0 < c) × (c < m + 1) × (d.name c ≡ n)

-- Some headers have been linked.
abbrev pub HasHeads : Dance → Type 0
HasHeads d = (m : ℕ) × AreHeads m d

heads-Mutual : (m : ℕ) (d : Dance) → AreHeads m d → (y : ℕ) → y < m + 1 → Mutual d.right d.left y
heads-Mutual m d h y lt = (
  h.well_formed.across.first_second y (omega (arith, h.count)),
  h.well_formed.across.second_first y (omega (arith, h.count)),
)

-- The state that `append_column` leaves
abbrev appended : ℕ → Dance → Dance
appended n d =
    let f = put_left root d.cur_node (lone d.cur_node d.cur_node n d) in
    record f { columns = update f.columns n (some d.cur_node) }

missing_or : (o : Option ℕ) → (o ≡ none) ⊎ (is_none o ≡ false)
missing_or none = inl refl
missing_or (some c) = inr refl

-- `append_column` ends only where the column is missing and a node is left.
append_column-runs :
    (n : ℕ) (d e : Dance)
    → append_column n d ≡ some e
    → (d.columns n ≡ none) × (d.cur_node < max_nodes) × (e ≡ appended n d)
unfolding append_column new_column
append_column-runs n d e ran = elim (missing_or (d.columns n)) [
  | inr there ↦ absurd (
      let failed : append_column n d ≡ none = rw (append_column, there) refl in
      none_ends e (sym failed ∙ ran))
  | inl free ↦ elim (Bool-cases (ltb d.cur_node max_nodes)) [
    | inr full ↦ absurd (
        let failed : append_column n d ≡ none = rw (append_column, free, new_column, full) refl in
        none_ends e (sym failed ∙ ran))
    | inl room ↦
        let ends : append_column n d ≡ some (appended n d) =
          rw (append_column, free, new_column, room) refl in
        (free, (ltb_iff d.cur_node max_nodes).0 room, some_inj (sym ran ∙ ends))
  ]
]

module _ (n m : ℕ) (d : Dance) (h : AreHeads m d) where
  abbrev added : Dance
  added = lone d.cur_node d.cur_node n d

  added-IsWellFormed : IsWellFormed added
  added-IsWellFormed = lone-IsWellFormed d.cur_node n d (omega arith) h.well_formed

  added-Mutual : (y : ℕ) → y < d.cur_node + 1 → Mutual added.right added.left y
  unfolding lone
  added-Mutual y lt =
      (added-IsWellFormed.across.first_second y lt, added-IsWellFormed.across.second_first y lt)

  added-right : (y : ℕ) → y < d.cur_node → added.right y ≡ d.right y
  unfolding lone
  added-right y lt = update-ne d.right d.cur_node y d.cur_node (λ e. omega (arith, e))

  added-left : added.left root ≢ d.cur_node
  unfolding lone
  added-left e = ground (arith, h.well_formed.across.first_below root, h.count, e)

  added-Chain : Chain added.right root (added.right root) (heads m)
  added-Chain = rw (added-right root (omega (arith, h.count))) (
      Chain-same d.right added.right root (d.right root) (heads m)
        (All-mem (λ y. added.right y ≡ d.right y) (heads m)
          (λ y e. added-right y (ground (arith, mem-heads y m, h.count, e))))
        h.linked)

  appended-Chain :
      Chain (appended n d).right root ((appended n d).right root) (heads m ++ (d.cur_node ∷ []))
  unfolding put_left
  appended-Chain =
      insert-Chain added.right added.left root d.cur_node (heads m) (λ e. omega (arith, e, h.count))
        added-left (ground (arith, mem-heads d.cur_node m, h.count))
        (added-Mutual root (omega arith))
        (All-mem (Mutual added.right added.left) (heads m)
          (λ y e. added-Mutual y (ground (arith, mem-heads y m, h.count, e))))
        added-Chain

  appended-alone :
      (c : ℕ)
      → c < suc m + 1
      → ((appended n d).down c ≡ c) × ((appended n d).up c ≡ c) × ((appended n d).col c ≡ c)
  unfolding put_left lone
  appended-alone c lt = ground (arith, h.alone c, h.count)

  appended-titled :
      (k c : ℕ)
      → (appended n d).columns k ≡ some c
      → (0 < c) × (c < suc m + 1) × ((appended n d).name c ≡ k)
  unfolding put_left lone
  appended-titled k c e = elim (Bool-cases (n == k)) [
    | inl same ↦
        let is : d.cur_node ≡ c =
          some_inj (sym (ap (λ b. if b then some d.cur_node else d.columns k) same) ∙ e) in
        ground (arith, h.count, is, (==_iff n k).0 same)
    | inr other ↦
        let old =
          h.titled k c (sym (ap (λ b. if b then some d.cur_node else d.columns k) other) ∙ e) in
        ground (arith, h.count, old.0, old.1, old.2)
  ]

  appended-AreHeads : d.columns n ≡ none → d.cur_node < max_nodes → AreHeads (suc m) (appended n d)
  unfolding put_left lone append_column new_column
  appended-AreHeads free room =
      let (e, ran, well, count, _) =
        append_column_lem n d h.well_formed (omega (arith, h.count)) room free in
      let same = (append_column-runs n d e ran).2 in
      record {
        well_formed = subst IsWellFormed same well;
        count = omega (arith, h.count);
        linked =
            subst
              (λ z.
                Chain (appended n d).right root ((appended n d).right root) (heads m ++ (z ∷ [])))
              (omega (arith, h.count)) appended-Chain;
        alone = appended-alone;
        titled = appended-titled;
        fresh = h.fresh;
      }

pub append_column-HasHeads : (n : ℕ) → Keeps HasHeads (append_column n)
append_column-HasHeads n d e ran (m, h) =
    let (free, room, same) = append_column-runs n d e ran in
    subst HasHeads (sym same) (suc m, appended-AreHeads n m d h free room)

missing_column-HasHeads : (marked : Bool) (n : ℕ) → Keeps HasHeads (missing_column marked n)
unfolding missing_column
missing_column-HasHeads true n d e ran h = subst HasHeads (some_inj ran) h
missing_column-HasHeads false n d e ran h = append_column-HasHeads n d e ran h

pub cell_column-HasHeads : (inout : ℕ → ℕ) (i : ℕ) → Keeps HasHeads (cell_column inout i)
unfolding cell_column
cell_column-HasHeads inout i d e ran h = elim (Bool-cases (inout i == 0)) [
  | inl empty ↦ append_column-HasHeads i d e (sym (rw (cell_column, empty) refl) ∙ ran) h
  | inr full ↦ subst HasHeads (some_inj (sym (rw (cell_column, full) refl) ∙ ran)) h
]

pub digit_columns-HasHeads : (marks : Marks) (i k : ℕ) → Keeps HasHeads (digit_columns marks i k)
unfolding digit_columns
digit_columns-HasHeads marks i k d e ran h =
    let v = k + 1 in
    let (g, both, last) = bind_ends _ (missing_column (marks.boxes i v) (get_box_col i v)) e ran in
    let (f, first, next) = bind_ends _ (missing_column (marks.cols i v) (get_col_col i v)) g both in
    missing_column-HasHeads (marks.boxes i v) (get_box_col i v) g e last (
      missing_column-HasHeads (marks.cols i v) (get_col_col i v) f g next
        (missing_column-HasHeads (marks.rows i v) (get_row_col i v) d f first h))
