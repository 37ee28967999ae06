-- ===== src/Crawl/Coverage.antt =====
-- That the boards of an inventory pass and its coverage report agree in number.
use re_dstm.Prelude.{
  ℕ, ◌+◌, ◌≤◌, String, ◌≡◌, refl, ◌∙◌, true, not, ◌||◌, Option, none, some, List, [], ◌∷◌, map,
  arith, ◌&&◌, ◌==◌, filter, count, length, length-map, length-filter,
}
use re_dstm.Prelude.Sorting.{sort, length-sort}
use re_dstm.Frontier.Table.{Board}
use re_dstm.Crawl.Boards.{
  boards, by_inventory, is_wanted, is_covered, is_uncovered, in_progress, inventory_pass_coverage,
  seen_before, seen_since,
}

module _ (id : Option String) (since : ℕ) where
  one_or_other : (b : Board) → is_uncovered (some since) b ≡ not (is_covered since b)
  one_or_other b = seen b.last_inventory_at
    where
      seen :
          (t : Option ℕ)
          → (seen_before t since || not (b.inventory_next_page == 1))
            ≡ not (seen_since t since && b.inventory_next_page == 1)
      seen none = refl
      seen (some t) = ground arith

  covered_or_listed :
      (shelves : List Board)
      → count (is_wanted id) shelves
        ≡ count (λ b. is_wanted id b && is_covered since b) shelves
          + count (λ b. is_wanted id b && is_uncovered (some since) b) shelves
  covered_or_listed [] = omega arith
  covered_or_listed (b ∷ shelves) = ground (arith, covered_or_listed shelves, one_or_other b)

  progress_uncovered :
      (shelves : List Board)
      → count (λ b. is_wanted id b && in_progress b) shelves
        ≤ count (λ b. is_wanted id b && is_uncovered (some since) b) shelves
  progress_uncovered [] = omega arith
  progress_uncovered (b ∷ shelves) = ground (arith, progress_uncovered shelves)

  -- For every table of boards, pass start and board asked for: the boards that a resumed inventory pass
  -- would still visit are as many as the coverage counts as in progress or pending, and together with
  -- the completed ones they are all that it counts.
  pub inventory_pass_coverage-exact :
      (shelves : List Board)
      → (length (boards shelves id true (some since))
          ≡ (inventory_pass_coverage shelves since id).in_progress_boards
            + (inventory_pass_coverage shelves since id).pending)
        × ((inventory_pass_coverage shelves since id).total
            ≡ (inventory_pass_coverage shelves since id).completed
              + length (boards shelves id true (some since)))
  unfolding boards inventory_pass_coverage
  inventory_pass_coverage-exact shelves = (
    omega (arith, listed, covered_or_listed shelves, progress_uncovered shelves),
    omega (arith, listed, covered_or_listed shelves),
  )
    where
      wanted : List Board
      wanted = filter (λ b. is_wanted id b && is_uncovered (some since) b) shelves

      listed :
          length (map (λ (b : Board). b.board_id) (sort by_inventory wanted))
          ≡ count (λ b. is_wanted id b && is_uncovered (some since) b) shelves
      listed =
          length-map (λ (b : Board). b.board_id) (sort by_inventory wanted)
          ∙ length-sort by_inventory wanted
          ∙ length-filter (λ b. is_wanted id b && is_uncovered (some since) b) shelves
