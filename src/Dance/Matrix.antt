-- ===== src/Dance/Matrix.antt =====
-- The rows that the constructor of `Dance` in Lab1/sudoku_dancing_links.cpp adds.
use cloud_computing.Prelude.{
  ℕ, suc, ◌+◌, ◌*◌, ◌/◌, ◌%◌, ◌<◌, ◌≤◌, Option, some, ◌≡◌, ◌≢◌, refl, sym, ap, subst, ◌∙◌, arith,
  ◌>>=◌, update, update_self, update-ne,
}
use cloud_computing.Dance.{Dance, max_nodes}
use cloud_computing.Dance.Build.{
  put_left, new_row, add_rows, get_row_col, get_col_col, get_box_col, box_of,
}
use cloud_computing.Dance.Columns.{Ends, Has, Started}
use cloud_computing.Dance.WellFormed.{new_row_lem, put_left-IsWellFormed}

-- The node is alone in its row.
record IsAlone (x : ℕ) (d : Dance) : Type 0 where
  to_left : d.left x ≡ x
  to_right : d.right x ≡ x

put_left-IsAlone :
    (old new x : ℕ) (d : Dance)
    → x ≢ old
    → x ≢ new
    → x ≢ d.left old
    → IsAlone x d
    → IsAlone x (put_left old new d)
unfolding put_left
put_left-IsAlone old new x d apart nn nl h = record {
  to_left =
      update-ne (update d.left new (d.left old)) old x new apart
      ∙ update-ne d.left new x (d.left old) nn
      ∙ h.to_left;
  to_right =
      update-ne (update d.right new old) (d.left old) x new nl
      ∙ update-ne d.right new x old nn
      ∙ h.to_right;
}

pub left-put_left : (old new : ℕ) (d : Dance) → (put_left old new d).left old ≡ new
unfolding put_left
left-put_left old new d = update_self (update d.left new (d.left old)) old new

put_left-Started :
    (old new : ℕ) (d : Dance)
    → old < d.cur_node
    → new < d.cur_node
    → old ≢ new
    → IsAlone new d
    → Started d
    → Started (put_left old new d)
unfolding put_left
put_left-Started old new d lo ln ne alone h = record {
  well_formed = put_left-IsWellFormed old new d lo ln ne alone.to_left alone.to_right h.well_formed;
  has_root = h.has_root;
}

-- What a new row leaves as it is
record RowAdded (d e : Dance) : Type 0 where
  started : Started e
  count : e.cur_node ≡ d.cur_node + 1
  columns : e.columns ≡ d.columns
  alone : IsAlone d.cur_node e
  others : (x : ℕ) → x ≢ d.cur_node → IsAlone x d → IsAlone x e

new_row-RowAdded :
    (col : ℕ) (d : Dance)
    → Started d
    → d.cur_node < max_nodes
    → Has d.columns col
    → (e : Dance) × (new_row col d ≡ some (d.cur_node, e)) × RowAdded d e
new_row-RowAdded col d h room (c, there) =
    let r = d.cur_node in
    let (e, ran, well, count, columns, left, right) =
      new_row_lem col c d h.well_formed room there in
    (
      e,
      ran,
      record {
        started = record { well_formed = well; has_root = omega arith };
        count = count;
        columns = columns;
        alone = record {
          to_left = ap (λ f. f r) left ∙ update_self d.left r r;
          to_right = ap (λ f. f r) right ∙ update_self d.right r r;
        };
        others = λ x ne alone. record {
          to_left = ap (λ f. f x) left ∙ update-ne d.left r x r ne ∙ alone.to_left;
          to_right = ap (λ f. f x) right ∙ update-ne d.right r x r ne ∙ alone.to_right;
        };
      },
    )

-- The four nodes of a row are joined.
joined :
    (d : Dance) (r : ℕ)
    → Started d
    → d.cur_node ≡ r + 4
    → IsAlone r d
    → IsAlone (r + 1) d
    → IsAlone (r + 2) d
    → IsAlone (r + 3) d
    → Started (put_left r (r + 3) (put_left r (r + 2) (put_left r (r + 1) d)))
unfolding put_left
joined d r h count a0 a1 a2 a3 =
    let e = put_left r (r + 1) d in
    let f = put_left r (r + 2) e in
    let start = a0.to_left in
    let here : e.left r ≡ r + 1 = left-put_left r (r + 1) d in
    let there : f.left r ≡ r + 2 = left-put_left r (r + 2) e in
    put_left-Started r (r + 3) f (omega arith) (omega arith) (λ x. omega arith)
      (put_left-IsAlone r (r + 2) (r + 3) e (λ x. omega arith) (λ x. omega arith) (λ x. omega arith)
        (put_left-IsAlone r (r + 1) (r + 3) d (λ x. omega arith) (λ x. omega arith)
          (λ x. omega arith) a3))
      (put_left-Started r (r + 2) e (omega arith) (omega arith) (λ x. omega arith)
        (put_left-IsAlone r (r + 1) (r + 2) d (λ x. omega arith) (λ x. omega arith)
          (λ x. omega arith) a2)
        (put_left-Started r (r + 1) d (omega arith) (omega arith) (λ x. omega arith) a1 h))

-- While the rows are added, `4 * b` nodes so far, the columns are `columns`.
pub record Rows (columns : ℕ → Option ℕ) (b : ℕ) (d : Dance) : Type 0 where
  pub started : Started d
  pub few : d.cur_node ≤ 325 + 4 * b
  pub same : d.columns ≡ columns

joined-Rows :
    (columns : ℕ → Option ℕ) (b : ℕ) (d d0 d1 d2 d3 : Dance)
    → Rows columns b d
    → RowAdded d d0
    → RowAdded d0 d1
    → RowAdded d1 d2
    → RowAdded d2 d3
    → Rows columns (suc b) (
        put_left d.cur_node d2.cur_node
          (put_left d.cur_node d1.cur_node (put_left d.cur_node d0.cur_node d3)))
unfolding put_left
joined-Rows columns b d d0 d1 d2 d3 h h0 h1 h2 h3 =
    let r = d.cur_node in
    let n1 : d0.cur_node ≡ r + 1 = h0.count in
    let n2 : d1.cur_node ≡ r + 2 = omega (arith, h0.count, h1.count) in
    let n3 : d2.cur_node ≡ r + 3 = omega (arith, h0.count, h1.count, h2.count) in
    let built =
      joined d3 r h3.started (omega (arith, h3.count, n3))
        (h3.others r (λ e. omega (arith, n3))
          (h2.others r (λ e. omega (arith, n2)) (h1.others r (λ e. omega (arith, n1)) h0.alone)))
        (subst (λ n. IsAlone n d3) n1
          (h3.others d0.cur_node (λ e. omega (arith, n1, n3))
            (h2.others d0.cur_node (λ e. omega (arith, n1, n2)) h1.alone)))
        (subst (λ n. IsAlone n d3) n2 (h3.others d1.cur_node (λ e. omega (arith, n2, n3)) h2.alone))
        (subst (λ n. IsAlone n d3) n3 h3.alone) in
    rw (n1, n2, n3)
      (record {
        started = built;
        few = omega (arith, h.few, n3, h3.count);
        same = h3.columns ∙ h2.columns ∙ h1.columns ∙ h0.columns ∙ h.same;
      })

new_row_under :
    (columns : ℕ → Option ℕ) (col bound : ℕ) (d : Dance)
    → Started d
    → d.cur_node ≤ bound
    → bound < max_nodes
    → d.columns ≡ columns
    → Has columns col
    → (e : Dance) × (new_row col d ≡ some (d.cur_node, e)) × RowAdded d e
new_row_under columns col bound d h le lt same has =
    new_row-RowAdded col d h (omega arith) (subst (λ f. Has f col) (sym same) has)

row-bind {ℓ κ} :
    {P : Dance → Type ℓ} {Q : Dance → Type κ} {o : Option (ℕ × Dance)} {r : ℕ}
    (k : ℕ × Dance → Option Dance)
    → (e : Dance) × (o ≡ some (r, e)) × P e
    → ((e : Dance) → P e → Ends (k (r, e)) Q)
    → Ends (o >>= k) Q
row-bind k (e, ran, h) next = let (g, ran2, h2) = next e h in (g, rw ran ran2, h2)

pub add_rows_lem :
    (columns : ℕ → Option ℕ) (i v b : ℕ) (d : Dance)
    → b < 729
    → Has columns i
    → Has columns (get_row_col (i / 9) v)
    → Has columns (get_col_col (i % 9) v)
    → Has columns (get_box_col (box_of i) v)
    → Rows columns b d
    → Ends (add_rows i v d) (Rows columns (suc b))
unfolding add_rows
add_rows_lem columns i v b d lt cell row col box h =
    row-bind _ (new_row_under columns i (325 + 4 * b) d h.started h.few (omega arith) h.same cell)
      (λ d0 h0.
        row-bind _
          (new_row_under columns (get_row_col (i / 9) v) (326 + 4 * b) d0 h0.started
            (omega (arith, h.few, h0.count)) (omega arith) (h0.columns ∙ h.same) row)
          (λ d1 h1.
            row-bind _
              (new_row_under columns (get_col_col (i % 9) v) (327 + 4 * b) d1 h1.started
                (omega (arith, h.few, h0.count, h1.count)) (omega arith)
                (h1.columns ∙ h0.columns ∙ h.same) col)
              (λ d2 h2.
                row-bind _
                  (new_row_under columns (get_box_col (box_of i) v) (328 + 4 * b) d2 h2.started
                    (omega (arith, h.few, h0.count, h1.count, h2.count)) (omega arith)
                    (h2.columns ∙ h1.columns ∙ h0.columns ∙ h.same) box)
                  (λ d3 h3. (_, refl, joined-Rows columns b d d0 d1 d2 d3 h h0 h1 h2 h3)))))
