-- ===== src/Dance/Table/Units.antt =====
-- The nodes of rows that the constructor of `Dance` in Lab1/sudoku_dancing_links.cpp adds.
use cloud_computing.Prelude.{
  ℕ, suc, ◌+◌, ◌<◌, ◌≤◌, ◌≡◌, refl, sym, ap, subst, ◌∙◌, Option, none, some, some_inj, ltb, update,
  update_self, ◌≢◌, arith, Bool-cases, inl, inr, ◌⊎◌,
}
use cloud_computing.Dance.{Dance, root, max_nodes}
use cloud_computing.Dance.Build.{put_left, put_up, lone, new_row}
use cloud_computing.Dance.Rows.{Chain}
use cloud_computing.Dance.Search.Members.{All-mem}
use cloud_computing.Dance.Search.Choice.{Chain-same}
use cloud_computing.Dance.Table.Inverse.{none_ends}
use cloud_computing.Dance.Table.Heads.{heads, mem-heads}
use cloud_computing.Dance.Table.Nodes.{AreNodes, extended-AreNodes}

found_or : (o : Option ℕ) → (o ≡ none) ⊎ ((c : ℕ) × (o ≡ some c))
found_or none = inl refl
found_or (some c) = inr (c, refl)

-- `new_row` has added the node `r`.
pub record IsAdded (m k n : ℕ) (d : Dance) (r : ℕ) (e : Dance) : Type 0 where
  pub here : r ≡ m + 1 + k
  pub nodes : AreNodes m (suc k) e
  pub left : (x : ℕ) → e.left x ≡ update d.left r r x
  pub right : (x : ℕ) → e.right x ≡ update d.right r r x
  pub col : (x : ℕ) → x ≢ r → e.col x ≡ d.col x
  pub name : (x : ℕ) → e.name x ≡ update d.name r n x
  pub titled : e.name (e.col r) ≡ n

pub new_row-IsAdded :
    (m k n r : ℕ) (d e : Dance) → AreNodes m k d → new_row n d ≡ some (r, e) → IsAdded m k n d r e
unfolding new_row put_up lone
new_row-IsAdded m k n r d e h ran = elim (found_or (d.columns n)) [
  | inl missing ↦ absurd (
      let failed : new_row n d ≡ none = rw (new_row, missing) refl in
      none_ends (r, e) (sym failed ∙ ran))
  | inr (c, title) ↦ added c title
]
  where
    added : (c : ℕ) → d.columns n ≡ some c → IsAdded m k n d r e
    added c title = elim (Bool-cases (ltb d.cur_node max_nodes)) [
      | inr full ↦ absurd (
          let failed : new_row n d ≡ none = rw (new_row, title, full) refl in
          none_ends (r, e) (sym failed ∙ ran))
      | inl room ↦
          let f = put_up c d.cur_node (lone d.cur_node c n d) in
          let ends : new_row n d ≡ some (d.cur_node, f) = rw (new_row, title, room) refl in
          let same = some_inj (sym ran ∙ ends) in
          let at = ap (λ p. p.0) same in
          let to = ap (λ p. p.1) same in
          record {
            here = at ∙ h.count;
            nodes = subst (AreNodes m (suc k)) (sym to) (extended-AreNodes m k c n d h title);
            left = λ x. ap (λ g. g.left x) to ∙ ap (λ z. update d.left z z x) (sym at);
            right = λ x. ap (λ g. g.right x) to ∙ ap (λ z. update d.right z z x) (sym at);
            col = λ x ne. ap (λ g. g.col x) to ∙ ground (arith, at);
            name = λ x. ap (λ g. g.name x) to ∙ ap (λ z. update d.name z n x) (sym at);
            titled =
                ap (λ g. g.name (g.col r)) to
                ∙ ground (
                  arith,
                  at,
                  h.titled n c title,
                  h.count,
                  update_self (update d.col d.cur_node c) d.cur_node c,
                );
          }
    ]

pub put_left-AreNodes :
    (m k old new : ℕ) (d : Dance)
    → AreNodes m k d
    → m + 1 ≤ new
    → m + 1 ≤ d.left old
    → AreNodes m k (put_left old new d)
unfolding put_left
put_left-AreNodes m k old new d h lo ln = record {
  count = h.count;
  along = h.along;
  heads_linked = heads_same;
  linked = h.linked;
  under = h.under;
  titled = h.titled;
  fresh = h.fresh;
}
  where
    right_same : (y : ℕ) → y < m + 1 → (put_left old new d).right y ≡ d.right y
    right_same y lt = ground (arith, lo, ln)

    heads_same : Chain (put_left old new d).right root ((put_left old new d).right root) (heads m)
    heads_same = rw (right_same root (omega arith)) (
        Chain-same d.right (put_left old new d).right root (d.right root) (heads m)
          (All-mem (λ y. (put_left old new d).right y ≡ d.right y) (heads m)
            (λ y is. right_same y (ground (arith, mem-heads y m, is))))
          h.heads_linked)
