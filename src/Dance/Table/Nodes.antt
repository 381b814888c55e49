-- ===== src/Dance/Table/Nodes.antt =====
-- The nodes that the constructor of `Dance` in Lab1/sudoku_dancing_links.cpp puts into the columns.
use cloud_computing.Prelude.{
  ℕ, zero, suc, ◌+◌, ◌<◌, ◌≤◌, ◌≡◌, ◌≢◌, refl, sym, ap, subst, ◌∙◌, true, ◌&&◌, ◌||◌, some, List,
  All, [], ◌∷◌, ◌++◌, ◌==◌, ==_iff, ltb, leb, update_self, update-ne, if◌then◌else◌, arith,
  Bool-cases, inl, inr,
}
use cloud_computing.Dance.{Dance, root}
use cloud_computing.Dance.Build.{put_up, lone}
use cloud_computing.Dance.Rows.{Chain}
use cloud_computing.Dance.Undo.{All-Chain}
use cloud_computing.Dance.WellFormed.{IsMutual, alone-IsMutual, insert-IsMutual}
use cloud_computing.Dance.Search.Members.{
  mem, All-mem, mem-All, mem-append, Distinct, Distinct-append,
}
use cloud_computing.Dance.Search.Skip.{Mutual}
use cloud_computing.Dance.Search.Choice.{Chain-same}
use cloud_computing.Dance.Table.Insert.{insert-Chain}
use cloud_computing.Dance.Table.Heads.{heads, mem-heads}

-- The nodes of a column among the `k` nodes from `base` on
abbrev pub nodes_in : (ℕ → ℕ) → ℕ → ℕ → ℕ → List ℕ
nodes_in col c base zero = []
nodes_in col c base (suc k) =
    let before = nodes_in col c base k in
    if col (base + k) == c then before ++ ((base + k) ∷ []) else before

pub mem-nodes_in :
    (col : ℕ → ℕ) (c base k x : ℕ)
    → mem x (nodes_in col c base k) ≡ (leb base x && ltb x (base + k) && (col x == c))
mem-nodes_in col c base zero x = ground arith
mem-nodes_in col c base (suc k) x = elim (Bool-cases (col (base + k) == c)) [
  | inl e ↦ rw e (
      ground (
        arith,
        mem-append x (nodes_in col c base k) ((base + k) ∷ []),
        mem-nodes_in col c base k x,
        e,
        ap col,
        ==_iff x (base + k),
      ))
  | inr e ↦ rw e (ground (arith, mem-nodes_in col c base k x, e, ap col, ==_iff x (base + k)))
]

pub Distinct-nodes_in : (col : ℕ → ℕ) (c base k : ℕ) → Distinct (nodes_in col c base k)
Distinct-nodes_in col c base zero = tt
Distinct-nodes_in col c base (suc k) = elim (Bool-cases (col (base + k) == c)) [
  | inl e ↦ rw e (
      Distinct-append (nodes_in col c base k) ((base + k) ∷ []) (Distinct-nodes_in col c base k)
        (refl, tt) (λ z is. ground (arith, mem-nodes_in col c base k z, is)))
  | inr e ↦ rw e (Distinct-nodes_in col c base k)
]

nodes_in-same :
    (f g : ℕ → ℕ) (c base k : ℕ)
    → ((x : ℕ) → x < base + k → g x ≡ f x)
    → nodes_in g c base k ≡ nodes_in f c base k
nodes_in-same f g c base zero same = refl
nodes_in-same f g c base (suc k) same =
    ap
      (λ z.
        let before = nodes_in g c base k in if z == c then before ++ ((base + k) ∷ []) else before)
      (same (base + k) (omega arith))
    ∙ ap (λ before. if f (base + k) == c then before ++ ((base + k) ∷ []) else before)
        (nodes_in-same f g c base k (λ x lt. same x (omega arith)))

-- `m` headers and `k` nodes have been linked.
pub record AreNodes (m k : ℕ) (d : Dance) : Type 0 where
  pub count : d.cur_node ≡ m + 1 + k
  pub along : IsMutual d.cur_node d.up d.down
  pub heads_linked : Chain d.right root (d.right root) (heads m)
  pub linked : (c : ℕ) → c < m + 1 → Chain d.down c (d.down c) (nodes_in d.col c (m + 1) k)
  pub under : (x : ℕ) → m + 1 ≤ x → x < m + 1 + k → (0 < d.col x) × (d.col x < m + 1)
  pub fresh : d.stack ≡ []
  pub titled : (n c : ℕ) → d.columns n ≡ some c → (0 < c) × (c < m + 1) × (d.name c ≡ n)

module _ (m k c n : ℕ) (d : Dance) (h : AreNodes m k d) (title : d.columns n ≡ some c) where
  -- The state that `new_row` leaves
  abbrev pub extended : Dance
  extended = put_up c d.cur_node (lone d.cur_node c n d)

  alone-along : IsMutual (d.cur_node + 1) (lone d.cur_node c n d).up (lone d.cur_node c n d).down
  unfolding lone
  alone-along = alone-IsMutual d.cur_node d.up d.down h.along

  extended-along : IsMutual extended.cur_node extended.up extended.down
  unfolding lone put_up
  extended-along =
      insert-IsMutual (d.cur_node + 1) c d.cur_node (lone d.cur_node c n d).up
        (lone d.cur_node c n d).down (omega (arith, h.count, (h.titled n c title).1)) (omega arith)
        (λ e. omega (arith, e, h.count, (h.titled n c title).1))
        (update_self d.up d.cur_node d.cur_node) (update_self d.down d.cur_node d.cur_node)
        alone-along

  extended-col : (x : ℕ) → x < m + 1 + k → extended.col x ≡ d.col x
  unfolding lone put_up
  extended-col x lt = ground (arith, h.count)

  extended-here : extended.col (m + 1 + k) ≡ c
  unfolding lone put_up
  extended-here = ground (arith, h.count)

  small : c < m + 1
  small = (h.titled n c title).1

  in_use : (e y : ℕ) → e < m + 1 → mem y (e ∷ nodes_in d.col e (m + 1) k) ≡ true → y < d.cur_node
  in_use e y lt is = ground (arith, mem-nodes_in d.col e (m + 1) k y, h.count)

  alone_down : (y : ℕ) → y < d.cur_node → (lone d.cur_node c n d).down y ≡ d.down y
  unfolding lone
  alone_down y lt = update-ne d.down d.cur_node y d.cur_node (λ e. omega (arith, e))

  alone-Mutual :
      (y : ℕ) → y < d.cur_node → Mutual (lone d.cur_node c n d).down (lone d.cur_node c n d).up y
  alone-Mutual y lt =
      (alone-along.first_second y (omega arith), alone-along.second_first y (omega arith))

  alone_up : (lone d.cur_node c n d).up c ≢ d.cur_node
  unfolding lone
  alone_up e = ground (arith, h.along.first_below c, h.count, small, e)

  alone-linked :
      Chain
        (lone d.cur_node c n d).down
        c
        ((lone d.cur_node c n d).down c)
        (nodes_in d.col c (m + 1) k)
  alone-linked = rw (alone_down c (omega (arith, h.count, small))) (
      Chain-same d.down (lone d.cur_node c n d).down c (d.down c) (nodes_in d.col c (m + 1) k)
        (All-mem (λ y. (lone d.cur_node c n d).down y ≡ d.down y) (nodes_in d.col c (m + 1) k)
          (λ y e. alone_down y (in_use c y small (ground (arith, e)))))
        (h.linked c small))

  -- The column of the new node
  extended-linked :
      Chain extended.down c (extended.down c) (nodes_in d.col c (m + 1) k ++ (d.cur_node ∷ []))
  unfolding put_up
  extended-linked =
      insert-Chain (lone d.cur_node c n d).down (lone d.cur_node c n d).up c d.cur_node
        (nodes_in d.col c (m + 1) k) (λ e. omega (arith, e, h.count, small)) alone_up
        (ground (arith, mem-nodes_in d.col c (m + 1) k d.cur_node, h.count))
        (alone-Mutual c (omega (arith, h.count, small)))
        (All-mem (Mutual (lone d.cur_node c n d).down (lone d.cur_node c n d).up)
          (nodes_in d.col c (m + 1) k)
          (λ y e. alone-Mutual y (in_use c y small (ground (arith, e)))))
        alone-linked

  -- Any other column
  module _ (e : ℕ) (lt : e < m + 1) (ne : e ≢ c) where
    -- No pointer of the column leads to `c`.
    leads_on :
        All
          (λ y. ((d.down y == e) || leb (m + 1) (d.down y)) ≡ true)
          (e ∷ nodes_in d.col e (m + 1) k)
    leads_on =
        All-Chain (λ x. []) (λ z. ((z == e) || leb (m + 1) z) ≡ true) d.down e (d.down e)
          (nodes_in d.col e (m + 1) k) (h.linked e lt) (ground arith)
          (All-mem (λ z. ((z == e) || leb (m + 1) z) ≡ true) (nodes_in d.col e (m + 1) k)
            (λ y is. ground (arith, mem-nodes_in d.col e (m + 1) k y, is)))

    other_down :
        (y : ℕ) → mem y (e ∷ nodes_in d.col e (m + 1) k) ≡ true → extended.down y ≡ d.down y
    unfolding lone put_up
    other_down y is =
        let lead =
          mem-All (λ z. ((d.down z == e) || leb (m + 1) (d.down z)) ≡ true)
            (e ∷ nodes_in d.col e (m + 1) k) y leads_on is in
        let used = in_use e y lt is in
        let back = h.along.second_first c (omega (arith, h.count, small)) in
        ground (arith, lead, used, back, ap d.down, small, h.count)

    extended-other : Chain extended.down e (extended.down e) (nodes_in d.col e (m + 1) k)
    extended-other = rw (other_down e (ground arith)) (
        Chain-same d.down extended.down e (d.down e) (nodes_in d.col e (m + 1) k)
          (All-mem (λ y. extended.down y ≡ d.down y) (nodes_in d.col e (m + 1) k)
            (λ y is. other_down y (ground (arith, is))))
          (h.linked e lt))

  -- Headers are not in the rows of nodes.
  extended-heads : Chain extended.right root (extended.right root) (heads m)
  unfolding lone put_up
  extended-heads =
      rw (update-ne d.right d.cur_node root d.cur_node (λ e. omega (arith, e, h.count))) (
        Chain-same d.right extended.right root (d.right root) (heads m)
          (All-mem (λ y. extended.right y ≡ d.right y) (heads m)
            (λ y is.
              update-ne d.right d.cur_node y d.cur_node
                (λ e. ground (arith, mem-heads y m, h.count, is, e))))
          h.heads_linked)

  longer :
      (e : ℕ)
      → nodes_in extended.col e (m + 1) (suc k) ≡ (
          if c == e
          then nodes_in d.col e (m + 1) k ++ ((m + 1 + k) ∷ [])
          else nodes_in d.col e (m + 1) k)
  longer e =
      ap
        (λ z.
          let before = nodes_in extended.col e (m + 1) k in
          if z == e then before ++ ((m + 1 + k) ∷ []) else before)
        extended-here
      ∙ ap (λ before. if c == e then before ++ ((m + 1 + k) ∷ []) else before)
          (nodes_in-same d.col extended.col e (m + 1) k extended-col)

  extended_own : Chain extended.down c (extended.down c) (nodes_in extended.col c (m + 1) (suc k))
  extended_own =
      let itself : (c == c) ≡ true = ground arith in
      subst (Chain extended.down c (extended.down c))
        (ap (λ z. nodes_in d.col c (m + 1) k ++ (z ∷ [])) h.count
          ∙ sym (
              longer c
              ∙ ap
                  (λ b.
                    if b
                    then nodes_in d.col c (m + 1) k ++ ((m + 1 + k) ∷ [])
                    else nodes_in d.col c (m + 1) k)
                  itself))
        extended-linked

  extended_all :
      (e : ℕ)
      → e < m + 1
      → Chain extended.down e (extended.down e) (nodes_in extended.col e (m + 1) (suc k))
  extended_all e lt = elim (Bool-cases (c == e)) [
    | inl is ↦
        subst
          (λ z. Chain extended.down z (extended.down z) (nodes_in extended.col z (m + 1) (suc k)))
          ((==_iff c e).0 is) extended_own
    | inr other ↦
        subst (Chain extended.down e (extended.down e))
          (sym (
            longer e
            ∙ ap
                (λ b.
                  if b
                  then nodes_in d.col e (m + 1) k ++ ((m + 1 + k) ∷ [])
                  else nodes_in d.col e (m + 1) k)
                other))
          (extended-other e lt (λ same. ground (arith, same, other)))
  ]

  pub extended-AreNodes : AreNodes m (suc k) extended
  unfolding lone put_up
  extended-AreNodes = record {
    count = omega (arith, h.count);
    along = extended-along;
    heads_linked = extended-heads;
    linked = extended_all;
    under = λ x le lt. ground (arith, h.under x, h.count, h.titled n c title);
    fresh = h.fresh;
    titled = λ j e is. ground (arith, h.titled j e is, h.count);
  }
