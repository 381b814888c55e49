-- ===== src/Dance/WellFormed.antt =====
-- The constructor of `Dance` in Lab1/sudoku_dancing_links.cpp keeps the links in order.
use cloud_computing.Prelude.{
  ℕ, ◌+◌, ◌<◌, Option, none, some, ltb_iff, Bool-cases, inl, inr, some_inj, ◌≡◌, ◌≢◌, refl, sym, ap,
  ◌∙◌, update, update_self, ◌==◌, if◌then◌else◌, arith,
}
use cloud_computing.Dance.{Dance, root, max_nodes}
use cloud_computing.Dance.Build.{put_left, put_up, lone, new_column, append_column, new_row}

-- Below `n`, the pointers `f` and `g` stay below `n` and undo one another.
pub record IsMutual (n : ℕ) (f g : ℕ → ℕ) : Type 0 where
  pub first_below : (j : ℕ) → j < n → f j < n
  pub second_below : (j : ℕ) → j < n → g j < n
  pub first_second : (j : ℕ) → j < n → f (g j) ≡ j
  pub second_first : (j : ℕ) → j < n → g (f j) ≡ j

-- A node at `n` that points at itself
pub alone-IsMutual :
    (n : ℕ) (f g : ℕ → ℕ) → IsMutual n f g → IsMutual (n + 1) (update f n n) (update g n n)
alone-IsMutual n f g h = record {
  first_below = λ j lt. ground (arith, h.first_below j);
  second_below = λ j lt. ground (arith, h.second_below j);
  first_second = λ j lt. ground (arith, h.second_below j, h.first_second j);
  second_first = λ j lt. ground (arith, h.first_below j, h.second_first j);
}

-- The node `new`, which points at itself, is put before `old`.
pub insert-IsMutual :
    (n old new : ℕ) (f g : ℕ → ℕ)
    → old < n
    → new < n
    → old ≢ new
    → f new ≡ new
    → g new ≡ new
    → IsMutual n f g
    → IsMutual n (update (update f new (f old)) old new) (update (update g new old) (f old) new)
insert-IsMutual n old new f g lo ln ne fn gn h =
    let a = h.first_below old lo in
    let b = h.second_first old lo in
    record {
      first_below = λ j lt. ground (arith, h.first_below j);
      second_below = λ j lt. ground (arith, h.second_below j);
      first_second = λ j lt. ground (arith, h.first_second j, h.second_below j);
      second_first = λ j lt. ground (arith, h.second_first j, h.first_below j, h.first_second j);
    }

-- The nodes that are in use are linked in both directions, in their rows and in their columns.
pub record IsWellFormed (d : Dance) : Type 0 where
  pub across : IsMutual d.cur_node d.left d.right
  pub along : IsMutual d.cur_node d.up d.down
  pub headers : (j : ℕ) → j < d.cur_node → d.col j < d.cur_node
  pub named : (n c : ℕ) → d.columns n ≡ some c → c < d.cur_node

pub lone-IsWellFormed :
    (col n : ℕ) (d : Dance)
    → col < d.cur_node + 1
    → IsWellFormed d
    → IsWellFormed (lone d.cur_node col n d)
unfolding lone
lone-IsWellFormed col n d lt h = record {
  across = alone-IsMutual d.cur_node d.left d.right h.across;
  along = alone-IsMutual d.cur_node d.up d.down h.along;
  headers = λ j below. ground (arith, h.headers j);
  named = λ m c e. omega (arith, h.named m c e);
}

pub put_left-IsWellFormed :
    (old new : ℕ) (d : Dance)
    → old < d.cur_node
    → new < d.cur_node
    → old ≢ new
    → d.left new ≡ new
    → d.right new ≡ new
    → IsWellFormed d
    → IsWellFormed (put_left old new d)
unfolding put_left
put_left-IsWellFormed old new d lo ln ne el er h = record {
  across = insert-IsMutual d.cur_node old new d.left d.right lo ln ne el er h.across;
  along = h.along;
  headers = h.headers;
  named = h.named;
}

pub put_up-IsWellFormed :
    (old new : ℕ) (d : Dance)
    → old < d.cur_node
    → new < d.cur_node
    → old ≢ new
    → d.up new ≡ new
    → d.down new ≡ new
    → IsWellFormed d
    → IsWellFormed (put_up old new d)
unfolding put_up
put_up-IsWellFormed old new d lo ln ne eu ed h = record {
  across = h.across;
  along = insert-IsMutual d.cur_node old new d.up d.down lo ln ne eu ed h.along;
  headers = λ j below. ground (arith, h.headers j);
  named = h.named;
}

named_update :
    (columns : ℕ → Option ℕ) (n c m k : ℕ)
    → (columns m ≡ some k → k < c)
    → update columns n (some c) m ≡ some k
    → k < c + 1
named_update columns n c m k h e = elim (Bool-cases (n == m)) [
  | inl same ↦ omega (arith, some_inj (sym (ap (λ b. if b then some c else columns m) same) ∙ e))
  | inr other ↦ omega (arith, h (sym (ap (λ b. if b then some c else columns m) other) ∙ e))
]

-- `append_column` succeeds where the column is missing and a node is left.
pub append_column_lem :
    (n : ℕ) (d : Dance)
    → IsWellFormed d
    → 0 < d.cur_node
    → d.cur_node < max_nodes
    → d.columns n ≡ none
    → (e : Dance) × (append_column n d ≡ some e)
      × IsWellFormed e
      × (e.cur_node ≡ d.cur_node + 1)
      × ((m : ℕ) → e.columns m ≡ update d.columns n (some d.cur_node) m)
unfolding append_column new_column put_left lone
append_column_lem n d h zero_below room free =
    let c = d.cur_node in
    let added = lone-IsWellFormed c n d (omega arith) h in
    let inserted =
      put_left-IsWellFormed root c (lone c c n d) (omega arith) (omega arith) (λ e. omega arith)
        (update_self d.left c c) (update_self d.right c c) added in
    let f = put_left root c (lone c c n d) in
    (
      record f { columns = update f.columns n (some c) },
      rw (free, (ltb_iff c max_nodes).1 room) refl,
      record {
        across = inserted.across;
        along = inserted.along;
        headers = inserted.headers;
        named = λ m k e. omega (arith, named_update d.columns n d.cur_node m k (h.named m k) e);
      },
      refl,
      λ m. refl,
    )

-- `new_row` succeeds where the column is there and a node is left. The new node is alone in its row.
pub new_row_lem :
    (col c : ℕ) (d : Dance)
    → IsWellFormed d
    → d.cur_node < max_nodes
    → d.columns col ≡ some c
    → (e : Dance) × (new_row col d ≡ some (d.cur_node, e))
      × IsWellFormed e
      × (e.cur_node ≡ d.cur_node + 1)
      × (e.columns ≡ d.columns)
      × (e.left ≡ update d.left d.cur_node d.cur_node)
      × (e.right ≡ update d.right d.cur_node d.cur_node)
unfolding new_row put_up lone
new_row_lem col c d h room there =
    let r = d.cur_node in
    let below = h.named col c there in
    let added = lone-IsWellFormed c col d (omega arith) h in
    (
      put_up c r (lone r c col d),
      rw (there, (ltb_iff r max_nodes).1 room) refl,
      put_up-IsWellFormed c r (lone r c col d) (omega arith) (omega arith) (λ e. omega arith)
          (update_self d.up r r) (update_self d.down r r) added,
      refl,
      refl,
      refl,
      refl,
    )
