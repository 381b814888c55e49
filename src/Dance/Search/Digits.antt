-- ===== src/Dance/Search/Digits.antt =====
-- The loop of `solve` in Lab1/sudoku_dancing_links.cpp that fills the cells in, and what it reads.
use cloud_computing.Prelude.{
  ℕ, zero, suc, ◌≡◌, ◌<◌, ◌≤◌, refl, ap, ◌∙◌, true, false, Option, none, some, List, All, [], ◌∷◌,
  ltb, Bool-cases, inl, inr, ◌%◌, update,
}
use cloud_computing.Dance.{Dance, hide, unlink}
use cloud_computing.Dance.Links.{taken}
use cloud_computing.Dance.Undo.{All-Chain}
use cloud_computing.Dance.Solve.{cell_val, fill_cells}
use cloud_computing.Dance.Search.Members.{mem, All-mem, remove}
use cloud_computing.Dance.Search.Full.{AreRows, rest_of}
use cloud_computing.Dance.Search.Cover.{IsMatrix, with_stack, after_cover, cover-IsMatrix}
use cloud_computing.Dance.Search.Choose.{Choosable, after-right, after_all}

abbrev pub IsNode : ℕ → ℕ → ℕ → Type 0
IsNode base top x = (base ≤ x) × (x < top)

-- The nodes of a row are named by a cell and by digits: the loop finds both.
abbrev pub AreNamed : ℕ → ℕ → ℕ → (ℕ → ℕ × ℕ) → Dance → Type 0
AreNamed base top rounds digit d =
    (x : ℕ) → IsNode base top x → cell_val rounds d none none x ≡ some (digit x)

-- The board after the rows' digits have been written, the first row's first
abbrev pub write_all : (ℕ → ℕ × ℕ) → List ℕ → (ℕ → ℕ) → ℕ → ℕ
write_all digit [] board = board
write_all digit (n ∷ ns) board = write_all digit ns (update board (digit n).0 (digit n).1)

-- States in which the loop reads the same
record IsSame (base top : ℕ) (d e : Dance) : Type 0 where
  name : e.name ≡ d.name
  right : (x : ℕ) → IsNode base top x → e.right x ≡ d.right x
  within : (x : ℕ) → IsNode base top x → IsNode base top (d.right x)

-- One round of the loop, at a node with the name `n`, before the node `next`
abbrev read : ℕ → Dance → Option ℕ → Option ℕ → ℕ → ℕ → Option (ℕ × ℕ)
read rounds d cell val n next = elim (ltb n 100) [
  | true ↦ cell_val rounds d (some n) val next
  | false ↦ cell_val rounds d cell (some (n % 10)) next
]

read_as :
    (d e : Dance) (rounds : ℕ) (cell val : Option ℕ) (n next : ℕ)
    → ((a b : Option ℕ) → cell_val rounds e a b next ≡ cell_val rounds d a b next)
    → read rounds e cell val n next ≡ read rounds d cell val n next
read_as d e rounds cell val n next ih = elim (Bool-cases (ltb n 100)) [
  | inl c ↦ rw (read, c) (ih (some n) val)
  | inr c ↦ rw (read, c) (ih cell (some (n % 10)))
]

read_same :
    (base top : ℕ) (d e : Dance) (rounds : ℕ) (cell val : Option ℕ) (x : ℕ)
    → IsSame base top d e
    → IsNode base top x
    → ((a b : Option ℕ) → cell_val rounds e a b (d.right x) ≡ cell_val rounds d a b (d.right x))
    → read rounds e cell val (e.name x) (e.right x) ≡ read rounds d cell val (d.name x) (d.right x)
read_same base top d e rounds cell val x same is ih =
    ap (λ f. read rounds e cell val (f x) (e.right x)) same.name
    ∙ ap (read rounds e cell val (d.name x)) (same.right x is)
    ∙ read_as d e rounds cell val (d.name x) (d.right x) ih

cell_val-same :
    (base top : ℕ) (d e : Dance) (rounds : ℕ) (cell val : Option ℕ) (x : ℕ)
    → IsSame base top d e
    → IsNode base top x
    → cell_val rounds e cell val x ≡ cell_val rounds d cell val x
unfolding cell_val
cell_val-same base top d e zero (some a) (some b) x same is = refl
cell_val-same base top d e (suc rounds) (some a) (some b) x same is = refl
cell_val-same base top d e zero none b x same is = refl
cell_val-same base top d e zero (some a) none x same is = refl
cell_val-same base top d e (suc rounds) none b x same is =
    read_same base top d e rounds none b x same is
      (λ a c. cell_val-same base top d e rounds a c (d.right x) same (same.within x is))
cell_val-same base top d e (suc rounds) (some a) none x same is =
    read_same base top d e rounds (some a) none x same is
      (λ c f. cell_val-same base top d e rounds c f (d.right x) same (same.within x is))

with_inout-IsSame :
    (base top : ℕ) (d : Dance) (board : ℕ → ℕ)
    → ((x : ℕ) → IsNode base top x → IsNode base top (d.right x))
    → IsSame base top d (record d { inout = board })
with_inout-IsSame base top d board within = record {
  name = refl;
  right = λ x is. refl;
  within = within;
}

-- Where the rows are named, the loop ends and writes every digit.
pub fill_cells_lem :
    (base top rounds : ℕ) (digit : ℕ → ℕ × ℕ) (ns : List ℕ) (d : Dance)
    → AreNamed base top rounds digit d
    → ((x : ℕ) → IsNode base top x → IsNode base top (d.right x))
    → All (IsNode base top) ns
    → fill_cells rounds ns d ≡ some (record d { inout = write_all digit ns d.inout })
unfolding fill_cells
fill_cells_lem base top rounds digit [] d named within all = refl
fill_cells_lem base top rounds digit (n ∷ ns) d named within (is, all) = rw (named n is) (
    fill_cells_lem base top rounds digit ns _
      (λ x at.
        cell_val-same base top d _ rounds none none x (with_inout-IsSame base top d _ within) at
        ∙ named x at)
      within all)

taken-name : (s : List ℕ) (d : Dance) → (taken s d).name ≡ d.name
unfolding unlink
taken-name [] d = refl
taken-name (j ∷ s) d = taken-name s d

module _ (nodes : ℕ → List ℕ) (base top rounds : ℕ) (col : ℕ → ℕ) (digit : ℕ → ℕ × ℕ)
    (rows : AreRows nodes base top rounds) where
  pub right-IsNode :
      (hs : List ℕ) (vs : ℕ → List ℕ) (d : Dance)
      → IsMatrix nodes base top rounds col hs vs d
      → (x : ℕ) → IsNode base top x
      → IsNode base top (d.right x)
  right-IsNode hs vs d h x is =
      (All-Chain nodes (IsNode base top) d.right x (d.right x) (nodes x) (h.around x is.0 is.1).0 is
        (All-mem (IsNode base top) (nodes x) (λ k e. (rows.high x k e, rows.below x k e)))).0

  pub cover-AreNamed :
      (c : ℕ) (hs : List ℕ) (vs : ℕ → List ℕ) (d : Dance)
      → IsMatrix nodes base top rounds col hs vs d
      → mem c hs ≡ true
      → AreNamed base top rounds digit d
      → AreNamed base top rounds digit (after_cover nodes c vs d)
  unfolding hide
  cover-AreNamed c hs vs d h at named x is =
      cell_val-same base top d (after_cover nodes c vs d) rounds none none x
        (record {
          name = taken-name (rest_of nodes c vs) (hide c d);
          right = λ y node. after-right nodes base top rounds col rows c y hs vs d h at node.0;
          within = right-IsNode hs vs d h;
        })
        is
      ∙ named x is

  pub choose-AreNamed :
      (js hs : List ℕ) (vs : ℕ → List ℕ) (d : Dance)
      → IsMatrix nodes base top rounds col hs vs d
      → Choosable nodes base top rounds col rows js hs
      → AreNamed base top rounds digit d
      → AreNamed base top rounds digit (after_all nodes col js vs d)
  choose-AreNamed [] hs vs d h ok named = named
  choose-AreNamed (j ∷ js) hs vs d h (at, le, ok) named =
      choose-AreNamed js (remove (col j) hs) _ _
        (cover-IsMatrix nodes base top rounds col rows (col j) hs vs at d h) ok
        (cover-AreNamed (col j) hs vs d h at named)

  pub with_stack-AreNamed :
      (t hs : List ℕ) (vs : ℕ → List ℕ) (d : Dance)
      → IsMatrix nodes base top rounds col hs vs d
      → AreNamed base top rounds digit d
      → AreNamed base top rounds digit (with_stack t d)
  with_stack-AreNamed t hs vs d h named x is =
      cell_val-same base top d (with_stack t d) rounds none none x
        (record { name = refl; right = λ y node. refl; within = right-IsNode hs vs d h }) is
      ∙ named x is
