-- ===== src/Dance.antt =====
-- Lab1/sudoku_dancing_links.cpp: the links of `Dance`. A pointer is the index of its node in `nodes_`,
-- the fields of the nodes are functions of the index, and `root_` is node 0. A failed `assert` is
-- `none`, and so is a loop that has not ended after `rounds` rounds. `Build` has the constructor,
-- `Solve` the search; `Links`, `Rows` and `Undo` are about `cover` and `uncover`, and `WellFormed`,
-- `Columns`, `Digits`, `Matrix` and `Built` about the constructor, and `Spaces` about
-- `find_spaces`; the modules of `Search` are about `solve`,
-- and those of `Table` about the matrix that the constructor builds.
pub mod Build
pub mod Solve
pub mod Links
pub mod Rows
pub mod Undo
pub mod Search
pub mod Table
pub mod WellFormed
pub mod Columns
pub mod Digits
pub mod Matrix
pub mod Built
pub mod Spaces
use cloud_computing.Prelude.{
  ℕ, zero, suc, ◌+◌, ◌*◌, Bool, true, false, Option, none, some, List, ltb, ◌==◌, update, ◌>>=◌,
  if◌then◌else◌,
}
use cloud_computing.Std.Int.{ℤ, pos, negsuc}

pub record Dance : Type 0 where
  pub left : ℕ → ℕ
  pub right : ℕ → ℕ
  pub up : ℕ → ℕ
  pub down : ℕ → ℕ
  pub col : ℕ → ℕ
  pub name : ℕ → ℕ
  pub size : ℕ → ℤ
  pub columns : ℕ → Option ℕ
  pub cur_node : ℕ
  pub stack : List ℕ
  pub inout : ℕ → ℕ

abbrev pub root : ℕ
root = 0

-- `kMaxNodes`
abbrev pub max_nodes : ℕ
max_nodes = 1 + 81 * 4 + 9 * 9 * 9 * 4

abbrev pub inc : ℤ → ℤ
inc (pos n) = pos (n + 1)
inc (negsuc zero) = pos 0
inc (negsuc (suc n)) = negsuc n

abbrev pub dec : ℤ → ℤ
dec (pos zero) = negsuc 0
dec (pos (suc n)) = pos n
dec (negsuc n) = negsuc (suc n)

-- `for (x = …; x != end; x = x->next) body`
unfoldable pub walk :
    (Dance → ℕ → ℕ) → (ℕ → Dance → Option Dance) → ℕ → ℕ → ℕ → Dance → Option Dance
walk next body zero end x d = if x == end then some d else none
walk next body (suc rounds) end x d = elim (x == end) [
  | true ↦ some d
  | false ↦ body x d >>= λ e. walk next body rounds end (next e x) e
]

-- `c->right->left = c->left; c->left->right = c->right;`
unfoldable pub hide : ℕ → Dance → Dance
hide c d = record d {
  left = update d.left (d.right c) (d.left c);
  right = update d.right (d.left c) (d.right c);
}

-- The inner body of `cover`
unfoldable pub unlink : ℕ → Dance → Dance
unlink j d = record d {
  up = update d.up (d.down j) (d.up j);
  down = update d.down (d.up j) (d.down j);
  size = update d.size (d.col j) (dec (d.size (d.col j)));
}

-- The inner body of `uncover`: `j->up` is read after `j->down->up = j`.
unfoldable pub relink : ℕ → Dance → Dance
relink j d =
    let up = update d.up (d.down j) j in
    record d {
      up = up;
      down = update d.down (up j) j;
      size = update d.size (d.col j) (inc (d.size (d.col j)));
    }

-- `c->right->left = c; c->left->right = c;`
unfoldable pub show : ℕ → Dance → Dance
show c d =
    let left = update d.left (d.right c) c in
    record d { left = left; right = update d.right (left c) c }

unfoldable pub cover_row : ℕ → ℕ → Dance → Option Dance
unfolding walk unlink
cover_row rounds row d = walk (λ e. e.right) (λ j e. some (unlink j e)) rounds row (d.right row) d

unfoldable pub cover : ℕ → ℕ → Dance → Option Dance
unfolding walk cover_row hide
cover rounds c d = walk (λ e. e.down) (cover_row rounds) rounds c ((hide c d).down c) (hide c d)

unfoldable pub uncover_row : ℕ → ℕ → Dance → Option Dance
unfolding walk relink
uncover_row rounds row d = walk (λ e. e.left) (λ j e. some (relink j e)) rounds row (d.left row) d

unfoldable pub uncover : ℕ → ℕ → Dance → Option Dance
unfolding walk uncover_row show
uncover rounds c d =
    walk (λ e. e.up) (uncover_row rounds) rounds c (d.up c) d >>= λ e. some (show c e)
