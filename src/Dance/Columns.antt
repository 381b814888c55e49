-- ===== src/Dance/Columns.antt =====
-- The columns that the constructor of `Dance` in Lab1/sudoku_dancing_links.cpp appends.
use cloud_computing.Prelude.{
  ℕ, zero, suc, ◌+◌, ◌<◌, ◌≤◌, Bool, true, false, not, Option, none, some, ◌≡◌, ◌≢◌, refl, sym, ap,
  subst, ◌∙◌, update_self, update-ne, ◌==◌, ==_iff, if◌then◌else◌, arith, ◌>>=◌, Bool-cases, inl,
  inr,
}
use cloud_computing.Dance.{Dance, max_nodes}
use cloud_computing.Dance.Build.{missing_column, cell_column, for_below}
use cloud_computing.Dance.WellFormed.{IsWellFormed, append_column_lem}

-- A fallible step ends in a state with the property.
abbrev pub Ends {ℓ} : Option Dance → (Dance → Type ℓ) → Type ℓ
Ends o P = (e : Dance) × (o ≡ some e) × P e

pub Ends-bind {ℓ κ} :
    {P : Dance → Type ℓ} {Q : Dance → Type κ} {o : Option Dance} {k : Dance → Option Dance}
    → Ends o P
    → ((e : Dance) → P e → Ends (k e) Q)
    → Ends (o >>= k) Q
Ends-bind (e, ran, h) next = let (g, ran2, h2) = next e h in (g, rw ran ran2, h2)

pub for_below-Ends {ℓ} :
    (P : ℕ → Dance → Type ℓ) (n : ℕ) (body : ℕ → Dance → Option Dance) (d : Dance)
    → ((i : ℕ) (e : Dance) → i < n → P i e → Ends (body i e) (P (suc i)))
    → P 0 d
    → Ends (for_below n body d) (P n)
unfolding for_below
for_below-Ends P zero body d keep h = (d, refl, h)
for_below-Ends P (suc n) body d keep h =
    Ends-bind (for_below-Ends P n body d (λ i e lt. keep i e (omega arith)) h)
      (λ e. keep n e (omega arith))

-- There is a column with the number.
abbrev pub Has : (ℕ → Option ℕ) → ℕ → Type 0
Has columns n = (c : ℕ) × (columns n ≡ some c)

pub record Started (d : Dance) : Type 0 where
  pub well_formed : IsWellFormed d
  pub has_root : 0 < d.cur_node

-- The column `n` has been appended unless it was marked.
pub record Added (marked : Bool) (n : ℕ) (d e : Dance) : Type 0 where
  pub started : Started e
  pub few : e.cur_node ≤ d.cur_node + 1
  pub others : (m : ℕ) → m ≢ n → e.columns m ≡ d.columns m
  pub here : marked ≡ false → Has e.columns n
  pub keeps : (m : ℕ) → Has d.columns m → Has e.columns m

pub missing_column_lem :
    (marked : Bool) (n : ℕ) (d : Dance)
    → Started d
    → d.cur_node < max_nodes
    → d.columns n ≡ none
    → Ends (missing_column marked n d) (Added marked n d)
unfolding missing_column
missing_column_lem true n d h room free = (
  d,
  refl,
  record {
    started = h;
    few = omega arith;
    others = λ m ne. refl;
    here = λ e. cc;
    keeps = λ m has. has;
  },
)
missing_column_lem false n d h room free =
    let (e, ran, well, count, columns) = append_column_lem n d h.well_formed h.has_root room free in
    (
      e,
      ran,
      record {
        started = record { well_formed = well; has_root = omega arith };
        few = omega arith;
        others = λ m ne. columns m ∙ update-ne d.columns n m (some d.cur_node) ne;
        here = λ _. (d.cur_node, columns n ∙ update_self d.columns n (some d.cur_node));
        keeps = λ m (c, has). elim (Bool-cases (n == m)) [
          | inl same ↦
              (d.cur_node, columns m ∙ ap (λ b. if b then some d.cur_node else d.columns m) same)
          | inr other ↦
              (c, columns m ∙ ap (λ b. if b then some d.cur_node else d.columns m) other ∙ has)
        ];
      },
    )

module _ (inout : ℕ → ℕ) where
  -- After the columns of the first `t` cells
  pub record Cells (t : ℕ) (d : Dance) : Type 0 where
    pub started : Started d
    pub few : d.cur_node ≤ 1 + t
    pub free : (n : ℕ) → t ≤ n → d.columns n ≡ none
    pub cells : (i : ℕ) → i < t → inout i ≡ 0 → Has d.columns i

  cell_column_missing :
      (i : ℕ) (d : Dance) → cell_column inout i d ≡ missing_column (not (inout i == 0)) i d
  unfolding cell_column missing_column
  cell_column_missing i d = elim (Bool-cases (inout i == 0)) [
    | inl e ↦ rw e refl
    | inr e ↦ rw e refl
  ]

  pub cell_column-Cells :
      (t : ℕ) (d : Dance) → t < 81 → Cells t d → Ends (cell_column inout t d) (Cells (suc t))
  cell_column-Cells t d lt h =
      let (e, ran, added) =
        missing_column_lem (not (inout t == 0)) t d h.started (omega (arith, h.few))
          (h.free t (omega arith)) in
      (
        e,
        cell_column_missing t d ∙ ran,
        record {
          started = added.started;
          few = omega (arith, added.few, h.few);
          free = λ n le. added.others n (λ same. omega arith) ∙ h.free n (omega arith);
          cells = λ i below empty. elim (Bool-cases (i == t)) [
            | inl same ↦ subst (Has e.columns) (sym ((==_iff i t).0 same)) (
                added.here
                  (ap not ((==_iff (inout t) 0).1 (ap inout (sym ((==_iff i t).0 same)) ∙ empty))))
            | inr other ↦ added.keeps i (h.cells i (ground arith) empty)
          ];
        },
      )
