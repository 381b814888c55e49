-- ===== src/Examples/Searches.antt =====
-- The search of Lab1/sudoku_dancing_links.cpp on a small matrix, and on the matrix of a board.
use cloud_computing.Prelude.{
  ℕ, ◌+◌, ◌*◌, ◌≤◌, ◌<◌, true, false, none, some, List, All, [], ◌∷◌, ◌≡◌, ◌≢◌, refl, ◌==◌, ltb,
  leb, ◌&&◌, if◌then◌else◌, arith, Bool-cases, inl, inr,
}
use cloud_computing.Dance.{Dance, max_nodes}
use cloud_computing.Dance.Undo.{IsRow}
use cloud_computing.Dance.Solve.{solve, cell_val}
use cloud_computing.Dance.Search.Members.{mem, mem-All}
use cloud_computing.Dance.Search.Ring.{IsRing}
use cloud_computing.Dance.Search.Linked.{Inside, IsLinkedMatrix}
use cloud_computing.Dance.Search.Full.{AreRows}
use cloud_computing.Dance.Search.Cover.{IsMatrix}
use cloud_computing.Dance.Search.Step.{IsReady, Outcome}
use cloud_computing.Dance.Search.Solves.{HasNone, solve-Outcome}
use cloud_computing.Dance.Build.{dance}
use cloud_computing.Dance.Table.Heads.{heads}
use cloud_computing.Dance.Table.Nodes.{nodes_in}
use cloud_computing.Dance.Table.Fours.{IsUnit}
use cloud_computing.Dance.Table.Done.{dance-IsLinkedMatrix}
use cloud_computing.Dance.Table.Search.{IsSearched, three_rounds, dance-IsSearched}
use cloud_computing.Examples.Covers.{links, puzzle}

abbrev mate : ℕ → ℕ
mate x = if x == 3 then 4 else if x == 4 then 3 else if x == 5 then 6 else 5

abbrev mates : ℕ → List ℕ
mates x = if leb 3 x && ltb x 7 then mate x ∷ [] else []

mates-AreRows : AreRows mates 3 7 9
mates-AreRows = record {
  distinct =
      λ x. elim (Bool-cases (leb 3 x && ltb x 7)) [ inl e ↦ rw e (refl, tt) | inr e ↦ rw e tt ];
  back = λ x k e. ground (arith, e);
  others = λ x y k e f. ground (arith, e, f);
  high = λ x k e. ground (arith, e);
  below = λ x k e. ground (arith, e);
  short = λ x. ground arith;
}

-- What holds of the four nodes
each : (P : ℕ → Type 0) → All P (3 ∷ 4 ∷ 5 ∷ 6 ∷ []) → (x : ℕ) → 3 ≤ x → x < 7 → P x
each P all x le lt = mem-All P (3 ∷ 4 ∷ 5 ∷ 6 ∷ []) x all (ground arith)

abbrev headers : List ℕ
headers = 1 ∷ 2 ∷ []

abbrev column_of : ℕ → List ℕ
column_of c = if c == 1 then 3 ∷ 5 ∷ [] else 4 ∷ 6 ∷ []

apart : (a b : ℕ) → (a == b) ≡ false → a ≢ b
apart a b h e = ground arith

-- What holds of both headers
both : (P : ℕ → Type 0) → P 1 → P 2 → (c : ℕ) → mem c headers ≡ true → P c
both P one two c e = mem-All P headers c (one, (two, tt)) e

inside_range : (c x : ℕ) → mem x (column_of c) ≡ true → (3 ≤ x) × (x < 7)
inside_range c x e = ground (arith, e)

-- The other node of a row
mates_of :
    (x : ℕ)
    → 3 ≤ x
    → x < 7
    → (k : ℕ) → mem k (mates x) ≡ true
    → Inside links.col headers column_of k × (links.col x ≢ links.col k)
unfolding links
mates_of =
    each
      (λ x.
        (k : ℕ)
        → mem k (mates x) ≡ true
        → Inside links.col headers column_of k × (links.col x ≢ links.col k))
      (
        λ k e.
            mem-All (λ j. Inside links.col headers column_of j × (1 ≢ links.col j)) (4 ∷ []) k
              (((refl, refl), apart 1 2 refl), tt) e,
        (
          λ k e.
              mem-All (λ j. Inside links.col headers column_of j × (2 ≢ links.col j)) (3 ∷ []) k
                (((refl, refl), apart 2 1 refl), tt) e,
          (
            λ k e.
                mem-All (λ j. Inside links.col headers column_of j × (1 ≢ links.col j)) (6 ∷ []) k
                  (((refl, refl), apart 1 2 refl), tt) e,
            (
              λ k e.
                  mem-All (λ j. Inside links.col headers column_of j × (2 ≢ links.col j)) (5 ∷ []) k
                    (((refl, refl), apart 2 1 refl), tt) e,
              tt,
            ),
          ),
        ),
      )

links-IsMatrix : IsMatrix mates 3 7 9 links.col headers column_of links
unfolding links
links-IsMatrix = record {
  linked = record {
    has_root = omega arith;
    headers = record {
      forth = (refl, apart 1 0 refl, (refl, apart 2 0 refl, refl));
      back = (refl, apart 2 0 refl, (refl, apart 1 0 refl, refl));
      at_end = (refl, refl);
      at_nodes = ((refl, refl), ((refl, refl), tt));
      distinct = (refl, (refl, tt));
    };
    column =
        both (λ c. IsRing links.down links.up c (column_of c))
          (record {
            forth = (refl, apart 3 1 refl, (refl, apart 5 1 refl, refl));
            back = (refl, apart 5 1 refl, (refl, apart 3 1 refl, refl));
            at_end = (refl, refl);
            at_nodes = ((refl, refl), ((refl, refl), tt));
            distinct = (refl, (refl, tt));
          })
          (record {
            forth = (refl, apart 4 2 refl, (refl, apart 6 2 refl, refl));
            back = (refl, apart 6 2 refl, (refl, apart 4 2 refl, refl));
            at_end = (refl, refl);
            at_nodes = ((refl, refl), ((refl, refl), tt));
            distinct = (refl, (refl, tt));
          });
    low = λ c e. ground (arith, e);
    high = λ c x e f. (inside_range c x f).0;
    cols = refl;
    under = λ c x is e.
        both (λ c. (x : ℕ) → mem x (column_of c) ≡ true → links.col x ≡ c)
          (λ x e. mem-All (λ y. links.col y ≡ 1) (3 ∷ 5 ∷ []) x (refl, (refl, tt)) e)
          (λ x e. mem-All (λ y. links.col y ≡ 2) (4 ∷ 6 ∷ []) x (refl, (refl, tt)) e) c is x e;
  };
  full = record {
    inside = λ x k (_, e) near.
        (mates_of x (inside_range (links.col x) x e).0 (inside_range (links.col x) x e).1 k near).0;
    apart = λ x k (_, e) near.
        (mates_of x (inside_range (links.col x) x e).0 (inside_range (links.col x) x e).1 k near).1;
  };
  around =
      each (λ x. IsRow mates links x)
        (
          ((refl, apart 4 3 refl, refl), (refl, apart 4 3 refl, refl)),
          (
            ((refl, apart 3 4 refl, refl), (refl, apart 3 4 refl, refl)),
            (
              ((refl, apart 6 5 refl, refl), (refl, apart 6 5 refl, refl)),
              (((refl, apart 5 6 refl, refl), (refl, apart 5 6 refl, refl)), tt),
            ),
          ),
        );
  below = λ c x e f. (inside_range c x f).1;
  short = λ c e. ground arith;
  few = omega arith;
}

links-IsReady : IsReady mates 3 7 9 links.col (λ x. (5, 6)) mates-AreRows headers column_of links
unfolding links cell_val
links-IsReady = record {
  matrix = links-IsMatrix;
  named = λ x is.
      each (λ y. cell_val 9 links none none y ≡ some (5, 6)) (refl, (refl, (refl, (refl, tt)))) x
        is.0 is.1;
  chosen = tt;
}

solve-Outcome_example :
    Outcome mates 3 7 9 links.col
      (λ x. (5, 6))
      mates-AreRows
      headers
      column_of
      links
      links
      (HasNone mates 3 7 9 links.col (λ x. (5, 6)) mates-AreRows headers column_of)
      (solve 3 9 links)
solve-Outcome_example =
    solve-Outcome mates 3 7 9 links.col (λ x. (5, 6)) mates-AreRows 3 headers column_of links
      links-IsReady (omega arith)

dance-IsLinkedMatrix_example :
    (d : Dance) × (dance puzzle ≡ some d)
    × ((m : ℕ) × (q : ℕ) × (d.cur_node ≡ m + 1 + 4 * q)
        × IsLinkedMatrix (m + 1) d.col (heads m) (λ c. nodes_in d.col c (m + 1) (4 * q)) d
        × ((j : ℕ) → j < q → IsUnit (m + 1 + 4 * j) d))
dance-IsLinkedMatrix_example = dance-IsLinkedMatrix puzzle

long_enough : max_nodes + 5 ≤ 3246
long_enough = omega arith

dance-IsSearched_example : IsSearched puzzle 3241 3246 (three_rounds 3246 long_enough)
dance-IsSearched_example = dance-IsSearched puzzle 3241 3246 (omega arith) long_enough
